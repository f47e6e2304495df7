-- ===== src/Process/Spooling.antt =====
-- Where src/mlmmj-process.c leaves the mail.
use mlmmj.Base.{Bool, true, false, not, ◌&&◌, ◌||◌, Option, none, some}
use mlmmj.Process.{
  Kept, Spool, End, exit_success, exit_failure, crash, controls, to_owner, denies, unanswered,
  moderates, posts,
}

abbrev is_kept : Option Kept → Bool
is_kept none = false
is_kept (some k) = true

-- Where the mail is, for each way in which the program ends: in the queue for mlmmj-send or
-- `listcontrol`, in moderation, or nowhere when the poster is answered or the list wants silence. After
-- a failure it is still somewhere, but for a denial that can not be sent: there it is nowhere.
abbrev pub settled : Bool → Spool × End → Bool
settled noprocess (sp, posts text omit) =
    not sp.mailfile && sp.donemail && not (is_kept sp.discarded) && not sp.moderation
settled noprocess (sp, to_owner efrom text) = not sp.mailfile && sp.donemail && not sp.moderation
settled noprocess (sp, controls result) = not sp.mailfile && sp.donemail && not sp.moderation
settled noprocess (sp, moderates reason from only told) =
    not sp.mailfile && not sp.donemail && sp.moderation
settled noprocess (sp, denies d poster from) =
    not sp.mailfile && not sp.donemail && not sp.moderation && not (is_kept sp.discarded)
settled noprocess (sp, unanswered d) =
    not sp.mailfile && not sp.donemail && not sp.moderation && not (is_kept sp.discarded)
settled noprocess (sp, exit_success) = (noprocess || not sp.donemail) && not sp.moderation
settled noprocess (sp, exit_failure) = sp.mailfile || sp.donemail || sp.moderation
settled noprocess (sp, crash) = sp.mailfile || sp.donemail || sp.moderation

-- The files when the mail is copied to the queue, and when the mail that came in is gone.
abbrev pub taken : Spool
taken = record {
  mailfile = true;
  donemail = true;
  discarded = none;
  moderation = false;
  omit = none;
}

abbrev pub queued : Spool
queued = record {
  mailfile = false;
  donemail = true;
  discarded = none;
  moderation = false;
  omit = none;
}

abbrev gone : Spool
gone = record {
  mailfile = false;
  donemail = false;
  discarded = none;
  moderation = false;
  omit = none;
}
