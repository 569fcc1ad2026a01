-- ===== src/Lib.antt =====
-- A library management system: the frontend (frontend/src, TypeScript and React), where members
-- search and borrow books and librarians keep the books, the members and the returns, and the
-- server that it talks to by HTTP requests (app, Ruby on Rails).
--
-- Model. A component's state is a record, each handler is a function on it, and what the markup
-- shows is a function from the state to a record (`view`). An asynchronous handler is cut at its
-- `await`: one function up to the request (it returns what is sent) and one from the answer on;
-- clicks and answers then interleave as lists of events. The operations of the authentication
-- context and of the account and login pages, which never overlap on one page, are whole
-- functions in a state and exception monad instead, whose world records the states that were
-- rendered and the requests that were sent, in their order. axios, React and the router are not
-- modelled. In the modules of the frontend the server's answers are arguments, and a `Server` may
-- answer each request by all the requests before it; `Joint` puts the modelled server in their
-- place.
--
-- Files, each with its children:
-- Prelude: shared names, lists over native numbers, texts with `trim` and `join`.
-- Api: the shapes of answers and requests that the pages read (frontend/src/api/client.ts, and
--   the types in the pages).
-- Auth: frontend/src/context/AuthContext.tsx with ensureCsrfToken: `reducer`, `boot` (the first
--   effect), `login`, `logout`, `refresh`.
-- Shell: frontend/src/App.tsx, frontend/src/components/RoleRoute.tsx, the routes of
--   frontend/src/main.tsx: `app` is what is on the screen, `remount` says when a page loses its
--   state.
-- Login, Account: frontend/src/pages/Login.tsx and frontend/src/pages/Account.tsx.
-- Paging: what the list pages share: pager, search box, and a list fetched by an effect with
--   its requests in flight.
-- Forms: the checks of frontend/src/pages/librarian/Books.tsx and
--   frontend/src/pages/librarian/Members.tsx.
-- Books, Members: frontend/src/pages/librarian/Books.tsx (`Books.Row` is EditBookInline) and
--   frontend/src/pages/librarian/Members.tsx (`Members.Row` is Row).
-- Borrowings: `Query` holds the filters and headers of
--   frontend/src/pages/librarian/Borrowings.tsx and frontend/src/pages/member/Borrowings.tsx,
--   `Counter` the librarian's list and return dialog.
-- Dates: due badges of the borrowing pages and of frontend/src/pages/member/Dashboard.tsx.
-- BorrowButton: frontend/src/components/BorrowButton.tsx.
-- MemberPages: frontend/src/pages/member/Books.tsx and
--   frontend/src/pages/member/Borrowings.tsx, whose lists are stored without a check: `Replay`
--   tells what such a page shows, `Headers` has the controls of the second.
-- Modal: frontend/src/components/Modal.tsx with its listener for the Escape key.
-- Controls: frontend/src/components/Button.tsx, and Badge.tsx, Input.tsx, Table.tsx and
--   Card.tsx of the same folder.
-- QuickSearch, Dashboards: frontend/src/pages/librarian/Dashboard.tsx and
--   frontend/src/pages/member/Dashboard.tsx.
-- Backend: the server. `Tables` holds the tables of db/schema.rb and the answers of
--   app/controllers/application_controller.rb; `Lending` app/models/book.rb,
--   app/models/borrowing.rb, app/services/overdue_service.rb and the writes of
--   app/controllers/borrowings_controller.rb; `Catalogue` app/controllers/books_controller.rb;
--   `Membership` app/controllers/members_controller.rb and
--   app/controllers/accounts_controller.rb; `Index` and `Listing` the list of borrowings;
--   `Directory` the lists of books and members; `Search` the searches of app/models;
--   `Passwords` the password change; `Sessions` app/controllers/sessions_controller.rb;
--   `Figures` and `Tops` the counts and the lists of app/controllers/dashboards_controller.rb;
--   `Requests` the writes of config/routes.rb; `Seeds` the task of lib/tasks/bestsellers.rake.
-- Joint: the frontend on the server's own answers: `Lending`, `BookForms`, `Filters`, `Walk`
--   (the pages of a list), `Buttons`, `Figures`, `DueDates` and `Sessions`; `Offers` and
--   `Dashboard` take the borrow buttons of the rendered pages, and `Csrf` the check of writes
--   by the token that the client was given.
-- Markup: what the pages return, as trees of elements (`Nodes`) with their class names, texts
--   and handlers: `MemberDashboard` and `MemberItems` frontend/src/pages/member/Dashboard.tsx,
--   `MemberBooks` frontend/src/pages/member/Books.tsx, `LibrarianDashboard`
--   frontend/src/pages/librarian/Dashboard.tsx, `Books`, `Members` and `Borrowings` the pages
--   of frontend/src/pages/librarian (the last with frontend/src/pages/member/Borrowings.tsx),
--   `Forms` frontend/src/pages/Login.tsx and frontend/src/pages/Account.tsx; `BorrowButton`
--   frontend/src/components/BorrowButton.tsx; `Parts` and `Tables` the components that they
--   use. A handler is the event that it stands for, and `gather` reads a tree.
-- Tests: runs, and each result at a concrete input.
--
-- Choices. Instants are milliseconds from the epoch on, as natural numbers; a time zone is given
-- by the local day of an instant and the start of a local day, so that days may have 23 or 25
-- hours. A number in a form is NaN, an infinity or a decimal fraction. Object keys that the
-- server sends are distinct. No function of the code needs fuel: each recurs on a list, a text or
-- a number. `Joint.Walk.walk`, which clicks through the pages of a list, has a number of pages as
-- fuel; one more than the list fills is enough, since every page but the last is full. `alert`
-- appends to a list, and the answer to `confirm` is an argument; `console.error` is left out.
--
-- On the server a table is a list of rows, an action a function from the user and the tables to
-- an answer and the tables, and the time zone is UTC. Requests are served one after another, but
-- for `Backend.Race` and `Backend.Overlap`, in which requests to borrow overlap. What Ruby,
-- Active Support, PostgreSQL and Devise find (blank?, strip, downcase, ILIKE, Date.parse, the
-- errors of a user, passwords) is an argument.
--
-- Not modelled: Devise's own routes (sign-up, password reset), the task of
-- lib/tasks/borrowings.rake that fills the table with random examples, and the formats of
-- numbers, days and times in the locale.
pub mod Prelude
pub mod Api
pub mod Auth
pub mod Shell
pub mod Login
pub mod Markup
pub mod Account
pub mod Paging
pub mod Forms
pub mod Books
pub mod Members
pub mod Dates
pub mod Borrowings
pub mod BorrowButton
pub mod MemberPages
pub mod Controls
pub mod Modal
pub mod QuickSearch
pub mod Dashboards
pub mod Backend
pub mod Joint
pub mod Tests
