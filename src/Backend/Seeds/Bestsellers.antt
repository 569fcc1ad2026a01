-- ===== src/Backend/Seeds/Bestsellers.antt =====
-- The books of the task `db:seed_bestsellers` of lib/tasks/bestsellers.rake.
use ror_books_test.Prelude.{String, List, [], ◌∷◌}
use ror_books_test.Backend.Seeds.{Listing}

abbrev entry : String → String → String → Listing
entry title author genre = record { title = title; author = author; genre = genre }

abbrev pub bestsellers : List Listing
bestsellers =
    entry "Don Quixote" "Miguel de Cervantes" "Classic"
    ∷ entry "A Tale of Two Cities" "Charles Dickens" "Classic"
    ∷ entry "The Lord of the Rings" "J. R. R. Tolkien" "Fantasy"
    ∷ entry "The Little Prince" "Antoine de Saint-Exupéry" "Fiction"
    ∷ entry "The Hobbit" "J. R. R. Tolkien" "Fantasy"
    ∷ entry "And Then There Were None" "Agatha Christie" "Mystery"
    ∷ entry "Dream of the Red Chamber" "Cao Xueqin" "Classic"
    ∷ entry "She: A History of Adventure" "H. Rider Haggard" "Adventure"
    ∷ entry "The Lion, the Witch and the Wardrobe" "C. S. Lewis" "Fantasy"
    ∷ entry "The Da Vinci Code" "Dan Brown" "Thriller"
    ∷ entry "The Alchemist" "Paulo Coelho" "Fiction"
    ∷ entry "The Catcher in the Rye" "J. D. Salinger" "Fiction"
    ∷ entry "One Hundred Years of Solitude" "Gabriel García Márquez" "Fiction"
    ∷ entry "The Name of the Rose" "Umberto Eco" "Mystery"
    ∷ entry "Lolita" "Vladimir Nabokov" "Fiction"
    ∷ entry "To Kill a Mockingbird" "Harper Lee" "Fiction"
    ∷ entry "Pride and Prejudice" "Jane Austen" "Classic"
    ∷ entry "The Kite Runner" "Khaled Hosseini" "Fiction"
    ∷ entry "Life of Pi" "Yann Martel" "Fiction"
    ∷ entry "The Girl with the Dragon Tattoo" "Stieg Larsson" "Thriller"
    ∷ entry "The Hunger Games" "Suzanne Collins" "Dystopian"
    ∷ entry "Catching Fire" "Suzanne Collins" "Dystopian"
    ∷ entry "Mockingjay" "Suzanne Collins" "Dystopian"
    ∷ entry "Twilight" "Stephenie Meyer" "Paranormal Romance"
    ∷ entry "New Moon" "Stephenie Meyer" "Paranormal Romance"
    ∷ entry "Eclipse" "Stephenie Meyer" "Paranormal Romance"
    ∷ entry "Breaking Dawn" "Stephenie Meyer" "Paranormal Romance"
    ∷ entry "Fifty Shades of Grey" "E. L. James" "Romance"
    ∷ entry "Fifty Shades Darker" "E. L. James" "Romance"
    ∷ entry "Fifty Shades Freed" "E. L. James" "Romance"
    ∷ entry "The Fault in Our Stars" "John Green" "Young Adult"
    ∷ entry "The Help" "Kathryn Stockett" "Fiction"
    ∷ entry "The Book Thief" "Markus Zusak" "Historical Fiction"
    ∷ entry "Gone Girl" "Gillian Flynn" "Thriller"
    ∷ entry "The Shining" "Stephen King" "Horror"
    ∷ entry "It" "Stephen King" "Horror"
    ∷ entry "The Stand" "Stephen King" "Horror"
    ∷ entry "Misery" "Stephen King" "Horror"
    ∷ entry "1984" "George Orwell" "Dystopian"
    ∷ entry "Animal Farm" "George Orwell" "Satire"
    ∷ entry "Brave New World" "Aldous Huxley" "Dystopian"
    ∷ entry "Fahrenheit 451" "Ray Bradbury" "Dystopian"
    ∷ entry "Moby-Dick" "Herman Melville" "Classic"
    ∷ entry "War and Peace" "Leo Tolstoy" "Classic"
    ∷ entry "Crime and Punishment" "Fyodor Dostoevsky" "Classic"
    ∷ entry "Anna Karenina" "Leo Tolstoy" "Classic"
    ∷ entry "The Brothers Karamazov" "Fyodor Dostoevsky" "Classic"
    ∷ entry "The Great Gatsby" "F. Scott Fitzgerald" "Classic"
    ∷ entry "Ulysses" "James Joyce" "Classic"
    ∷ entry "The Sound and the Fury" "William Faulkner" "Classic"
    ∷ entry "The Grapes of Wrath" "John Steinbeck" "Classic"
    ∷ entry "Of Mice and Men" "John Steinbeck" "Classic"
    ∷ entry "East of Eden" "John Steinbeck" "Classic"
    ∷ entry "A Game of Thrones" "George R. R. Martin" "Fantasy"
    ∷ entry "A Clash of Kings" "George R. R. Martin" "Fantasy"
    ∷ entry "A Storm of Swords" "George R. R. Martin" "Fantasy"
    ∷ entry "A Feast for Crows" "George R. R. Martin" "Fantasy"
    ∷ entry "A Dance with Dragons" "George R. R. Martin" "Fantasy"
    ∷ entry "Prince Caspian" "C. S. Lewis" "Fantasy"
    ∷ entry "The Voyage of the Dawn Treader" "C. S. Lewis" "Fantasy"
    ∷ entry "The Silver Chair" "C. S. Lewis" "Fantasy"
    ∷ entry "The Horse and His Boy" "C. S. Lewis" "Fantasy"
    ∷ entry "The Magician's Nephew" "C. S. Lewis" "Fantasy"
    ∷ entry "The Last Battle" "C. S. Lewis" "Fantasy"
    ∷ entry "The Silmarillion" "J. R. R. Tolkien" "Fantasy"
    ∷ entry "The Picture of Dorian Gray" "Oscar Wilde" "Classic"
    ∷ entry "Dracula" "Bram Stoker" "Horror"
    ∷ entry "Frankenstein" "Mary Shelley" "Horror"
    ∷ entry "Jane Eyre" "Charlotte Brontë" "Classic"
    ∷ entry "Wuthering Heights" "Emily Brontë" "Classic"
    ∷ entry "Les Misérables" "Victor Hugo" "Classic"
    ∷ entry "The Hunchback of Notre-Dame" "Victor Hugo" "Classic"
    ∷ entry "The Count of Monte Cristo" "Alexandre Dumas" "Classic"
    ∷ entry "The Three Musketeers" "Alexandre Dumas" "Classic"
    ∷ entry "The Old Man and the Sea" "Ernest Hemingway" "Classic"
    ∷ entry "For Whom the Bell Tolls" "Ernest Hemingway" "Classic"
    ∷ entry "The Sun Also Rises" "Ernest Hemingway" "Classic"
    ∷ entry "The Stranger" "Albert Camus" "Classic"
    ∷ entry "The Plague" "Albert Camus" "Classic"
    ∷ entry "The Road" "Cormac McCarthy" "Fiction"
    ∷ entry "No Country for Old Men" "Cormac McCarthy" "Fiction"
    ∷ entry "Dune" "Frank Herbert" "Science Fiction"
    ∷ entry "Foundation" "Isaac Asimov" "Science Fiction"
    ∷ entry "Neuromancer" "William Gibson" "Science Fiction"
    ∷ entry "Snow Crash" "Neal Stephenson" "Science Fiction"
    ∷ entry "Ender's Game" "Orson Scott Card" "Science Fiction"
    ∷ entry "The Hitchhiker's Guide to the Galaxy" "Douglas Adams" "Science Fiction"
    ∷ entry "The Color Purple" "Alice Walker" "Fiction"
    ∷ entry "Beloved" "Toni Morrison" "Fiction"
    ∷ entry "A Brief History of Time" "Stephen Hawking" "Non-Fiction"
    ∷ entry "Sapiens" "Yuval Noah Harari" "Non-Fiction"
    ∷ entry "The Power of Habit" "Charles Duhigg" "Non-Fiction"
    ∷ entry "Educated" "Tara Westover" "Non-Fiction"
    ∷ entry "Becoming" "Michelle Obama" "Non-Fiction"
    ∷ entry "The Girl on the Train" "Paula Hawkins" "Thriller"
    ∷ entry "The Immortal Life of Henrietta Lacks" "Rebecca Skloot" "Non-Fiction"
    ∷ entry "The Outsiders" "S. E. Hinton" "Young Adult"
    ∷ entry "The Giver" "Lois Lowry" "Young Adult"
    ∷ entry "The Handmaid's Tale" "Margaret Atwood" "Dystopian"
    ∷ entry "The Princess Bride" "William Goldman" "Fantasy"
    ∷ []
