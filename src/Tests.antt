-- ===== src/Tests.antt =====
-- Runs of the definitions, and the theorems at inputs that meet their hypotheses.
mod Data
mod Sessions
mod Forms
mod Lists
mod Dialogs
mod Pages
mod Tables
mod Server
mod Joint
mod Csrf
mod Markup
mod Seeds
