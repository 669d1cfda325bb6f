-- ===== src/Lib.antt =====
-- Models of the web client of terminal-hub (frontend/src), a browser front end for shell sessions,
-- cron jobs and workspace files. Of the server, in Go, only the way
-- to its handlers is modelled; what it answers is an argument of the definitions that read it.
--
-- Connection (frontend/src/features/terminal/Terminal.tsx): the WebSocket of a terminal.
--   Connection/State holds the component's refs as a record, with the sockets, the timers and a log
--   of the calls made on the browser. Connection/Flow has the reconnection (calculateBackoffDelay,
--   connectWebSocket, scheduleReconnect, beginReconnectFlow, handleSocketClose cut at its await).
--   Connection/Handlers has the handlers of the socket, of window and document, sendInput and the
--   effect with its cleanup. Connection/Trace runs them on any sequence of events: a socket opens,
--   fails or closes, a timer fires, the check of the session is answered, the page is hidden or
--   resumed, text is typed, the address changes, the component goes. Connection/Timing and
--   Connection/Bounded are about the timers, Connection/Single about live sockets,
--   Connection/Recovery about lost ones, and Connection/Closed about what follows the cleanup.
--   Connection/Resize has the timers that fit the terminal to its container (Connection/Debounced).
--   Connection/Messages has onmessage: what the sockets write to the terminal.
-- Snapshot (the same file): the plain text of what a terminal shows, from normalizeLineEndings to
--   getVisibleBufferTextSnapshot. Snapshot/Lines, /Escapes, /Clean and /View hold the proofs. The
--   loop of stripEscapeSequences runs on the length of the text as fuel, and every round takes a
--   code unit at least.
-- Keys (frontend/src/features/terminal/mobileKeySequences.ts): the on-screen modifier keys.
-- Input (frontend/src/features/terminal/Terminal.tsx and TerminalPage.tsx): Input/Events has the
--   handlers of keys, of typed text and of the clipboard, with the modifiers that the page latches;
--   Input/Latches runs them on any sequence of events. They send what Keys makes of a key.
-- Palette (frontend/src/components/ui/MobileTerminalPalette.tsx): where the palette of keys stands,
--   in whole pixels, and its drags.
-- Touch (frontend/src/features/terminal/Terminal.tsx): scrolling by touch. Touch/Distance has the
--   whole numbers, as differences of positions, Touch/Moves and Touch/Scroll run the handlers.
-- Uploads (frontend/src/features/files/FilesPage.tsx): the upload queue. Uploads/State is its
--   refs, Uploads/Steps its operations and events, with runUploadTask cut at its awaits.
--   Uploads/Limits, /Progress and /Summary hold the proofs. Uploads/Totals is the bar of all uploads,
--   Uploads/Cleared the button that clears the list.
-- Files (frontend/src/features/files/api.ts): the client of the server's files. Files/Upload is
--   uploadWorkspaceFile as a state machine over the events of its request and of its signal;
--   Uploads/Steps reads its outcomes. Files/Names chooses the name of a download.
-- Browse: the directories that are shown. Browse/Query is what is asked for (features/files/api.ts and
--   features/terminal/fileBrowserApi.ts), Browse/Page the directory of FilesPage.tsx with
--   loadDirectory cut at its await, Browse/Picker the dialog of a terminal (useFileBrowser.ts,
--   FilePickerDialog.tsx). Browse/Latest and /Late run them on answers in any order.
-- Transfer (frontend/src/features/terminal/useFileTransfer.ts and FileTransferPanel.tsx):
--   Transfer/Request is the loop of runUploadRequest, with fuel (two rounds are enough:
--   Transfer/Rounds), Transfer/Panel the state of the hook and what the panel lets a user do.
--   Transfer/Pickers joins it with its two dialogs (FilePickerDialog.tsx; Transfer/Given, /Sources).
--   Transfer/Status is about the flags of the panel, Transfer/Ended and /Agreement put the uploads of
--   the panel beside those of the queue, on the same answers of the server; Transfer/Listed has the
--   statuses of the queue's items.
-- Cron (frontend/src/features/crons): Cron/Env is the text of a job's environment variables and
--   Cron/Form the rest of the form (cronForm.ts), over the data of api.ts in Cron/Api; Cron/Store
--   is the provider of the jobs (CronContext.tsx) over any order of the server's answers;
--   Cron/Jobs is what the page lists (CronPage.tsx), Cron/Page its state, panels and
--   figures (Cron/Panels), Cron/Labels the status of its rows
--   (CronTable.tsx). Their proofs are in Cron/EnvRoundTrip, /Schedule, /Requests, /Lookup,
--   /Sorted and /Ordered. Cron/Dialog is the dialog with the form (CronFormDialog.tsx), which submits through
--   the page (Cron/Submits); Cron/Actions the actions of the page that run (Cron/Busy);
--   Cron/Presets the input of the schedule (CronScheduleInput.tsx);
--   Cron/History the dialog with the history (CronHistoryDialog.tsx; Cron/Shown),
--   Cron/Executions what it shows (Cron/Expanded). Cron/Table is the table with what its buttons do
--   on the page (Cron/Pressed).
-- Sessions (frontend/src/features/sessions): Sessions/Store is the provider (SessionContext.tsx) over
--   any order of the server's answers (Sessions/Listing); Sessions/Grid is the dashboard
--   (SessionGrid.tsx; Sessions/Newest); Sessions/Dialogs is what the two dialogs ask
--   for (Sessions/Full), with the variables of a new session in Sessions/Env; Sessions/SameLines and
--   /SameVars put these beside Cron/Env.
-- Auth (frontend/src/features/auth and shared/http/client.ts): Auth/Provider has the state of
--   AuthProvider.tsx with the location of the router, the guard of the routes, the effect of the
--   login page, and the session event of apiFetch, which Connection calls too. Auth/Redirects and
--   Auth/Login run them, Auth/Refused beside Connection. Auth/Form is the form of LoginPage.tsx.
-- Navigation (frontend/src/features/navigation/Sidebar.tsx): the pages, the current session and the
--   deletion of a session (Navigation/Pages), the side bar and the menu (Navigation/Menu).
-- Workspace: the files page as a whole (FilesPage.tsx), which joins Browse/Page and Uploads/Steps, with
--   the drop zone and the downloads (Workspace/Refreshed, /Downloads), and what it shows
--   (Workspace/View, sizes in Workspace/Sizes).
-- Copy (frontend/src/features/terminal/CopyTextModal.tsx): the modal with the text of Snapshot, and what
--   it writes to the clipboard (Copy/Written).
-- Http: the calls of the server (shared/http/client.ts, the api.ts of auth, crons, sessions and
--   files, and features/terminal/useFileTransfer.ts for the upload and the download of a terminal):
--   requests, answers and errors. Http/Server is the part of internal/server/server.go that
--   says which handler a request reaches, Http/Reached puts the two together, Http/Refused puts the
--   calls beside Auth.
-- Common: texts as lists of UTF-16 code units (Common/Strings), lists over the native numbers
--   (Common/Lists), Boolean tests (Common/Tests).
-- Tests: theorems applied to concrete data, and runs of the code.
--
-- Numbers of the source that are counters, lengths and times in milliseconds are natural numbers;
-- they stay far below 2^53 in the program. Not modelled: React's rendering and its markup, fetch
-- and XMLHttpRequest themselves, xterm, toasts beyond their being shown, the media query of the dashboard,
-- and what the handlers of the server do.
pub mod Common
pub mod Keys
pub mod Input
pub mod Palette
pub mod Touch
pub mod Files
pub mod Browse
pub mod Transfer
pub mod Cron
pub mod Uploads
pub mod Workspace
pub mod Http
pub mod Snapshot
pub mod Copy
pub mod Sessions
pub mod Navigation
pub mod Auth
pub mod Connection
mod Tests
