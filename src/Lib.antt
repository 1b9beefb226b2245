-- ===== src/Lib.antt =====
-- Digital reception: the rules of the reception's API (api/src), and of the phone badge that it
-- reads (mobile/src/lib/badge.ts), as definitions that run and theorems about them.
--
-- The parts, their files and the code:
--   Parking/Rules, Parking/Rules/Window: api/src/parking/parking-rules.ts, the days that can be
--     booked (localDay, workingDays, bookableDays, opensOn, ...).
--   Parking/Store: the tables of api/src/entities/parking.entity.ts with their unique indexes; an
--     insert that breaks one is the "Duplicate entry" that the code catches.
--   Parking/Booking: `book`, `bookMany` and `cancel` of api/src/parking/parking.service.ts.
--   Parking/Weekly: `weekly`, `bookManagers`, `benefitChanged` and `spotOff` of the same service.
--   Parking/Keeps, Parking/Unique: sequences of these operations, and what each of them keeps.
--   Access/Rules, Access/Qr, Access/Verify: api/src/access/access.service.ts, the permission rules
--     (ruleAllows), the text of a badge's QR and `verify`, which queues its webhooks (Notices/Hooks).
--   Access/Badge: base64ToBytes, signStep and qrPayload of mobile/src/lib/badge.ts, which writes that
--     text; Base64 holds what is proved of the decoding.
--   Access/Activation: requestLoginCode, activateBadge and issueBadge of the same service; its children
--     Guesses and Issued hold what is proved about guesses and about a new badge.
--   Access/Sync: upsertDoor, upsertProject, upsertEmployee and deleteEmployee of the same service, and
--     retryOnDeadlock of api/src/common/db-retry.ts, over the rows of Store;
--     Cards, Rows and Again hold the theorems.
--   Midnight: startOfLocalDay and localDateToUtc of api/src/common/time.util.ts.
--   Invitations/Store, Invitations/Writes: api/src/entities/invitation.entity.ts and
--     api/src/invitations/invitations.service.ts (create, cancel, resend, qr, usable, consume); Once,
--     Guards and Created hold the theorems.
--   SignIn/Store, SignIn/Totp, SignIn/Login, SignIn/Mfa: api/src/auth/auth.controller.ts (login,
--     loginMfa, checkSecondFactor, failAttempt, logout, changePassword, and the second factor's
--     mfaSetup, mfaEnable, mfaRecoveryCodes, mfaDisable), api/src/auth/session.service.ts and
--     verifyTotp of api/src/common/totp.ts; Once and Lock hold the theorems.
--   Parcels/Desk, Parcels/Handover: api/src/admin/parcels.controller.ts, with assertSiteAccess of
--     api/src/common/guards.ts and enqueueParcel of api/src/common/push.service.ts.
--   Notices: the outboxes. Store (api/src/entities/webhook.entity.ts, push.entity.ts), Hooks (enqueue
--     and deliverDue of api/src/common/webhooks.service.ts), Render (its texts and `render`), Push
--     (enqueueArrival and deliverDue of api/src/common/push.service.ts) and Mail
--     (api/src/retention/mail-outbox.service.ts); Backlog, Retries, Turns, Drained and Ends hold the
--     theorems.
--   Visits: Store (api/src/entities/visit.entity.ts and the tables that a visit touches), Lifecycle
--     (api/src/common/visit-lifecycle.service.ts, and the close of a visit), Console
--     (api/src/admin/visits.service.ts, csv.ts) and Retention
--     (api/src/retention/retention.service.ts); Once, Scope, Erased, Expired and Swept hold the
--     theorems, Sample rows for the tests.
--   Kiosk: api/src/kiosk/kiosk.service.ts in Store (what every request reads), Persist, CheckIn,
--     Preregistered and CheckOut; Documents (api/src/common/site-documents.service.ts) and Images
--     (parseImage of api/src/common/files.service.ts); Accepted, Search, Leaving, Arrival, Minimal and
--     Kept hold the theorems. A check-in calls the invitations (consume), the webhooks (enqueue) and
--     push (enqueueArrival) in its transaction.
--   Base, Text, Calendar: lists, options and results; texts as lists of character codes; local days.
-- Parking and access share the applications of a person (AppKey), in Parking/Store.
--
-- How the code is modelled:
--   * The database is a record of tables, and an operation takes it and returns it; an error is a
--     value beside it. A read of several rows returns them in the order of the table.
--   * `book`, `activateBadge`, `loginMfa`, and the operations on an invitation, a parcel and a visit take a
--     function of the database, what other requests commit between their steps; `upsertEmployee` takes
--     two for each attempt of its transaction, before it and between its reads and writes; the other operations run alone, or in a transaction.
--     Sequences of writes (Access/Activation/Guesses,
--     Invitations/Once, SignIn/Once, Visits/Once) hold a row that was read at any earlier moment, and so cover the
--     interleavings of those requests.
--   * Identifiers, codes of sites and instants are numbers (milliseconds since 1970). A local date is
--     the number of its day, so that the order of the texts is the order of the numbers; time zones
--     are a parameter (Intl), and so are the HMAC, the base64 decoder of the API, the order of the spots' codes and new identifiers.
--   * An encrypted column is what it decrypts to. Upper case is that of ASCII.
--   * A worker is a loop over the rows that it read first, each written with an UPDATE by identifier
--     (Base/Work); what a service answers, and the clock, are parameters of the run.
--   * The loops are recursion on their lists. The loops of the retention job, which read batches until
--     one is not full, run on fuel (Base/Batches): more than there are files and visits is enough, and
--     is proved so. The printing of a number runs on fuel too: sixteen digits, enough for every integer
--     that a number of the language holds exactly (below 2 ^ 53).
--   * Of the storage of images only what a check-in puts there is modelled (`stored`, in Visits/Store):
--     a transaction that is rolled back leaves it.
--
-- Not modelled: the screens (web, mobile), the sending of mail, push and webhooks, the ciphers, migrations,
-- configuration, and the parts of the API that the files above do not name.
pub mod Base
pub mod Calendar
pub mod Text
pub mod Midnight
pub mod Parking
pub mod Access
pub mod Invitations
pub mod SignIn
pub mod Parcels
pub mod Notices
pub mod Visits
pub mod Kiosk
