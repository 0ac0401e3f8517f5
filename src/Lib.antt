-- ===== src/Lib.antt =====
-- The scripts of Cidemis, in which librarians ask for ISSN numbers and for corrections of records
-- of serials: web/src/main/webapp/view/static/js/scripts.js (the form of a request) and
-- web/src/main/webapp/view/static/js/datatables.js (the table of requests), with the menu
-- (lib/appy.js), the date of the last synchronisation (app.liste-demandes.js) and the statistics
-- (piwik.js) in the same folder. They work on one page, through jQuery, and talk to one server,
-- whose treatment of requests is in Server.antt and below it (Java, in
-- core/src/main/java/fr/abes/cidemis and web/src/main/java/fr/abes/cidemis).
--
-- The parts and how they meet. A click on a button of the form goes to actiondemande
-- (Submit.antt), which asks verifdemande (Form.antt) whether the form is in order; that asks the
-- server (Service.antt), tests an ISSN (Issn.antt), and marks what is wrong on the page
-- (Browser.antt). Before the form is sent its hints are taken out (Hints.antt). The form is then
-- sent by one of the handlers of Sending.antt, which put the buttons out of use until the server
-- has answered. The files of a form are added and deleted in Files.antt. The table keeps two
-- choices in cookies (Cookies.antt), loads itself from an address made of them and searches its
-- columns (Filters.antt), sorts by comparators of its own (Sorting.antt) that compare without
-- diacritics (Diacritics.antt), keeps the order of its columns (Columns.antt), deletes and
-- archives requests (Rows.antt) and exports them (Exports.antt). When the page is ready, initPage
-- (Glue.antt) opens the table: initDataTables (Opening.antt) puts together what is handed to the
-- library (Setup.antt), the saved fields (Controls.antt), the checkboxes and the comparators.
-- Which handler is called for which event is in Events.antt; the rows are selected in
-- Selection.antt, the popups are in Popups.antt, the user's e-mail address in Email.antt, sizes
-- in Layout.antt, tags in Tags.antt, the profiles of users in Profiles.antt and the menu in
-- Menu.antt.
--
-- The files, with the functions of the scripts that they are about:
-- - Base, and below it Tests, Lists, Int and Strings: Boolean tests, lists and integers over the
--   native numbers, texts as lists of UTF-16 code units with JavaScript's equality, order and
--   split.
-- - Browser: the page, the requests, the dialogs and the calls of jQuery and the DOM that the
--   scripts use. Browser.Laws: which writes leave the inputs alone.
-- - Issn: the sum of isValidISSN and the format test of verifdemande. Issn.Sum, Digits, Format,
--   Regular.
-- - Service: verifierppnajax, verifiernoticeajax, errorISSNAjax, ajaxPopup. Service.Answers.
-- - Form: verifdemande and isValidISSN, one function for each check, in the order of the code.
--   Form.Follows, Conditions, Checks, Verdict, Meaning.
-- - Hints: initblurTextElement, clearBlurText, clearTextOnFocus, addTextOnBlur. Hints.Laws.
-- - Submit: actiondemande and verifnoticedemande. Submit.Sends, Content.
-- - Sending: ajaxFormSubmit, ajaxFormCreationSubmit, displayDomLoadingElement,
--   removeDomLoadingElement, disabledFormButtonsElement, enabledFormButtonsElement,
--   deconnecterClick. Sending.Waiting, Bound, Once.
-- - Files: ajoutfichier, supprimerfichier, supprimerfichierup, supprimerpremierfichier.
--   Files.Counts, Steps.
-- - Diacritics: defaultDiacriticsRemovalap, letter by letter (Diacritics.Row, Upper, Lower), the
--   loops that make diacriticsMap of it, and removeDiacritics. Diacritics.Removal, Complete.
-- - Sorting: getDate and the comparators in oSort. Sorting.Keys, Dates.
-- - Cookies: getCookieValue and setCookie. Cookies.Jar is what the browser makes of an assignment
--   to document.cookie. Cookies.RoundTrip, Assign.
-- - Filters: the two checkboxes of initDataTables, afficherdemandeajax, the handler of xhr.dt,
--   searchtable. Filters.Toggles, Events, Patterns.
-- - Columns: the columns and cells of initDataTables, pad, updateColonnesOptions.
--   Columns.Padding, Order.
-- - Exports: exportDemandes, jQuery.download, getSelectedDemandes. Exports.Fields, Chosen.
-- - Rows: suppressiondemande, supprimerdemandeajax, popuparchive, archiverdemandeajax,
--   reloadTable. Rows.Asked.
-- - Regex: regular expressions and a matcher by derivatives. Regex.Language: the matcher against
--   the inductive language. Regex.Shapes.
-- - Email: testEmail, updateemail, creatEmailButton, modifemail, showmodifemail. Email.Labels,
--   Address, Update.
-- - Selection: switchClass, toggleClass, selectDemande, deselectAll, openDemande.
--   Selection.Clicks.
-- - Popups: popuppiecejointe, popucommentaire, exportPopup, exportMenuClic, closepopup,
--   afficherdemande, creationdemande, verificationdemande, goToListeDemande, cherchernotice,
--   fichierCiepsChange, onTypeDemandeSelectChange, onCodePaysSelectChange. Popups.Shown.
-- - Profiles: the events of initDragAnDrop, and updateUserProfil. Profiles.Places, Server.
-- - Layout: the menu of columns, the resizing of columns, ajustcolumnsize. Layout.Sizes.
-- - Menu: handleMainMenu, handleSidebarToggler, handleAccordions of lib/appy.js. Menu.Single.
-- - Controls: fnStateSaveParams, fnStateLoadParams, filtrertermine, filtrerarchive,
--   updateColonnesOptionsAjax. Controls.Loaded.
-- - Setup: the options of the table in initDataTables. Setup.Places.
-- - Tags: initTagDisplaying, styletags, the events of the table, the toggling of a column.
--   Tags.Colours.
-- - Events: the order in which an event calls handlers; Events.Bindings: the calls of click,
--   change, focus, blur, on and delegate. Events.Dispatch.
-- - Keys: initValidateOnEnter and validateOnEnter.
-- - Opening: initDataTables as a whole. Opening.Checkboxes.
-- - Glue: setLastDateSynchronised, piwik.js, initPage.
-- - Server: Demandes, the constants and the exceptions of the server. Server.Rights:
--   canUserModifyDemande, canUserArchiveDemande, canUserDeleteDemande. Server.Workflow:
--   processUpdateDemande, setEtatISSN, setCentreISSN. Server.Journal: saveJournal, updateJournal,
--   archiverDemande, archivageDemande. Server.Creation: creerDemande, processNewDemande, the
--   redirection of updateOnCBS. Server.Steps, Completion, History (History.Forms, Runs),
--   Redirection. Server.Deletion: supprimerDemande. Server.Options: optionsColonnes.
--   Server.Listing: the queries of IDemandesDao and findDemandesByCbsUsers; Listing.Page:
--   ListeDemandesAjax. Listing.Checkboxes. Server.Verify: VerifPPN and VerifNotice.
--   Verify.Answers.
-- - Samples, and the module Tests of each part: pages, servers and runs at concrete inputs.
--
-- State. A World is the page: a selector finds a list of elements with values, attributes,
-- classes and styles, and what was sent, asked, navigated to and submitted is recorded, the
-- latest first. Each handler is a function from a world, or from a record around it, to the next
-- one. Different selectors are taken to find different elements; where a selector by attribute
-- finds what others find too, it goes over the whole page. What answers the page, the server and
-- the user, is the parameter Outside of the synchronous requests and the questions. An
-- asynchronous request is split into the part up to the request and the part from its completion,
-- so that any completion can follow.
-- On the server a request is a record, an exception of Java a result without a value. A state
-- that is null is 0, and a test of it an exception; journals are given by time. A form changes
-- its request through creerDemande, which is the composition of the functions of the source in
-- their order; a run of users is a derivation of Reach (History.Runs).
--
-- Values. A missing value is none, for undefined. The numbers of isValidISSN are integers with
-- NaN. A text that the scripts walk is a list of code units, which for the letters used here are
-- the code points; other texts are strings. toLowerCase, toUTCString and the width of a column
-- are parameters of the definitions that use them.
--
-- Recursion. All loops are structural. pad calls itself on a longer text; its model counts its
-- calls down from the length that is asked for, which is no less than the number of zeros that
-- are missing. The digits of a number n are read with n + 1 rounds, more than it has digits.
--
-- Left out: the libraries in static/js/lib (jQuery, jQuery UI, DataTables, ColReorder, validate,
-- tag-it), which the scripts only call: what DataTables makes of its options, the widths that a
-- browser computes and the text of an answer that is read as HTML are parameters. Animations are
-- taken to their ends. Of the server, the tables of the database, the library for the Sudoc and
-- what the files of country codes say are parameters; comments, tags, files and mails of a
-- request, the users, the options that a role begins with, the import of the international
-- centre's answers and the batch jobs are left out.
pub mod Base
pub mod Browser
pub mod Issn
pub mod Service
pub mod Form
pub mod Hints
pub mod Submit
pub mod Diacritics
pub mod Sorting
pub mod Cookies
pub mod Sending
pub mod Filters
pub mod Columns
pub mod Files
pub mod Exports
pub mod Rows
pub mod Regex
pub mod Email
pub mod Selection
pub mod Popups
pub mod Profiles
pub mod Layout
pub mod Menu
pub mod Setup
pub mod Tags
pub mod Events
pub mod Glue
pub mod Server
pub mod Keys
pub mod Opening
pub mod Controls
mod Samples
