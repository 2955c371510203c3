-- ===== src/Lib.antt =====
-- The client of a messenger (frontend/src): end-to-end encryption, calls, the app lock, the chat
-- page, the connection to the server and the updater, with what makes each of them correct.
--
-- The parts and the files that model them:
--   Common     lists, tests and text; Common/Storage is `localStorage`, Common/IdMap a `Map` whose
--              keys are ids.
--   Crypto     frontend/src/shared/crypto. Crypto/Platform is what the code takes from WebCrypto,
--              from `btoa` and `TextEncoder`, and from @noble/curves: a record of functions, and
--              `Lawful`, the documented behaviour. Crypto/Async is an `async` function: a state
--              passing computation over the number of random draws so far, with the errors that
--              it throws. Crypto/E2e is e2e.ts, function by function (setupNewVault is
--              `setup_new_vault`); its children prove what the vault, messages, chat keys, files
--              and groups promise, and Crypto/E2e/Stored is the persistence of the account key.
--              Crypto/PeerKeys and Crypto/Attachments are peerKeys.ts: the cache of public keys
--              with the requests under way, and the functions over recipients.
--              Crypto/Toy is a platform with all of the behaviour, for examples.
--   Calls      frontend/src/features/calls. Calls/State, Local, Remote and Machine are
--              CallProvider.tsx: the refs and the React state as one record, a function for each
--              handler, and the component as a step function over its events. A promise is a
--              numbered job, and its continuation is an event of its own, so that a run holds
--              every interleaving. Calls/WebRtc is useWebRTC.ts, cut at its `await`s,
--              also those of its loop over the buffered candidates.
--   AppLock    frontend/src/shared/appLock.ts (AppLock/Settings) over the storage of a device, and
--              frontend/src/features/applock/AppLockProvider.tsx (AppLock/Provider) as a step
--              function over the events of the app, each with the time of the clock.
--   Chats      frontend/src/pages/ChatsPage.tsx: the events of the socket on the chat list, the
--              open thread, its cache in memory and the stored one (Chats/Page, Chats/Thread,
--              Chats/ChatOrder) and their runs (Chats/Machine), the read receipts and delivery
--              acks (Chats/Receipts), the loading of chats and messages (Chats/Loading), what
--              opens and closes a chat (Chats/Navigation), and with
--              frontend/src/shared/crypto/decryptIncoming.ts the way from an event to its text
--              (Chats/Incoming).
--   Composer   frontend/src/features/chats/ChatWindow.tsx: the window of the open chat. Its state is
--              `Window`; handleSubmit is cut at its `await` into `begin_submit`, `encrypt_body` and
--              `finish_submit`, and `submit` is the three in a row. Composer/Status is the status
--              of encryption, Composer/Drafts the drafts, Composer/Handlers the small handlers,
--              Composer/Upload the effect that uploads files, Composer/Forward forwarding, and
--              Composer/View the `AttachmentView` of frontend/src/features/chats/MessageItem.tsx;
--              the other children prove what they promise.
--   Account    frontend/src/features/auth and the token of frontend/src/shared/api/httpClient.ts:
--              useAuth.ts is Account/Session, with unregisterFCMDevice of
--              frontend/src/shared/hooks/useFCMNotifications.ts; vaultBootstrap.ts and
--              AccountKeyProvider.tsx are Account/Bootstrap.
--   Shared     the small state of frontend/src/shared: pendingCall.ts and the two files like it
--              (Shared/Pending), hooks/useAndroidBack.tsx (Shared/Back), utils/date.ts (Shared/Dates),
--              and frontend/src/features/chats/useRecentEmojis.ts (Shared/Emojis).
--   Contacts   frontend/src/features/contacts/ContactsModal.tsx (Contacts/Modal) and
--              frontend/src/shared/hooks/useLongPress.ts (Contacts/Press): selecting contacts and
--              deleting the selected ones.
--   Groups     frontend/src/features/chats/GroupInfoPanel.tsx: the panel of a group, its menu and its
--              buttons with the roles that may use them (Groups/Panel).
--   Socket     frontend/src/shared/hooks/useGlobalWebSocket.ts: the refs of the hook and the variables
--              of its effect as one record, the sockets it made with their ready states, and its
--              handlers and timers as events (Socket/Hook).
--   Updates    frontend/src/features/updates/UpdateProvider.tsx: the states of the updater, its
--              checks and downloads, which end with events of their own (Updates/Updater).
-- The parts meet where the code's do: the page decrypts by `get_chat_key` and `decrypt_message` of
-- Crypto, the composer encrypts by `encrypt_group_message` and `encrypt_message`, and both sides of
-- a conversation are put together in Composer/Delivered, Forwarded and Received.
--
-- Conventions. A string is the list of its UTF-16 units and an array of bytes a list of numbers;
-- `String.fromCharCode` and a write into a `Uint8Array` wrap around. `null` and `undefined` are
-- none, and where the code tests a number or a string for truth, 0 and the empty string fail the
-- test too. Times and counters are natural numbers. A React state update is applied at once, which
-- is what the code's refs are there for; where a handler keeps the value of an older render, the
-- model passes that value (`viewing`). A timer that is set is a field, its firing an event. All
-- loops are structural recursions over a list, so no definition needs fuel.
--
-- Parameters, with the behaviour that is assumed of them: the platform (`Lawful`), the conversion of
-- numbers to text and back (AppLock/Decision.Lawful), the order of timestamps by `localeCompare`
-- (`IsOrder`), `trim` in Chats/Page (elsewhere it is Common/Spaces), the clock and the formats of
-- dates in Shared/Dates, and the answers of the server. Of a message's fields those are kept that
-- the modelled handlers read or write.
--
-- Not modelled: the server (Go), the Android and desktop shells, the React components that only
-- render, the HTTP requests, push notifications and themes.
-- What cryptography keeps secret is not stated either: the theorems say who can read, not who cannot.
pub mod Common
pub mod Crypto
pub mod Calls
pub mod AppLock
pub mod Chats
pub mod Socket
pub mod Updates
pub mod Composer
pub mod Contacts
pub mod Groups
pub mod Account
pub mod Shared
