-- ===== src/Reply.antt =====
-- The replies of an SMTP server, src/checkwait_smtpreply.c and include/checkwait_smtpreply.h, and how
-- a line is read, src/mygetline.c.
pub mod Laws
mod Tests
use mlmmj.Base.{
  ℕ, Bool, true, false, ◌&&◌, Option, none, some, List, [], ◌∷◌, ◌++◌, ◌==◌, if◌then◌else◌, Bytes,
  codes,
}
use mlmmj.CString.{peek, rest_of, strip_prefix}

-- What one call of `read` of one byte gives before the end of the input.
pub data Read : Type 0 where
  got : ℕ → Read
  failed : Read

-- `mygetuntil`, with the buffer and the byte `ch` that the last call left. The result of `read` is
-- kept without a sign, so a failure is not told from a byte, and `ch` is taken once more.
unfoldable pub mygetuntil : Option ℕ → Bytes → ℕ → List Read → Option Bytes × List Read
mygetuntil eof buf ch [] = (if peek buf == 0 then none else some buf, [])
mygetuntil eof buf ch (r ∷ reads) =
    let c : ℕ = elim r [ got c ↦ c | failed ↦ ch ] in
    let more = mygetuntil eof (buf ++ c ∷ []) c reads in
    if elim eof [ none ↦ false | some e ↦ c == e ] then (some (buf ++ c ∷ []), reads) else more

-- The byte that `ch` holds before anything was read is not defined, hence the argument.
unfoldable pub mygetline : ℕ → List Read → Option Bytes × List Read
mygetline ch reads = mygetuntil (some b'\n') [] ch reads

unfoldable pub mygetcontent : ℕ → List Read → Option Bytes × List Read
mygetcontent ch reads = mygetuntil none [] ch reads

pub data ReplyType : Type 0 where
  connect ehlo helo from rcptto data_ dot quit rset : ReplyType

-- NULL for a reply that fits, else the reply; or a read through a null pointer.
pub data Answer : Type 0 where
  fits : Answer
  reply : Bytes → Answer
  crashes : Answer

abbrev begins : ℕ → ℕ → Bytes → Bool
begins a b r = peek r == a && peek (rest_of r) == b

abbrev wanted : ReplyType → Bytes → Bool
wanted connect r = begins b'2' b'2' r
wanted ehlo r = begins b'2' b'5' r
wanted helo r = begins b'2' b'5' r
wanted from r = begins b'2' b'5' r
wanted rcptto r = begins b'2' b'5' r
wanted data_ r = begins b'3' b'5' r
wanted dot r = begins b'2' b'5' r
wanted quit r = begins b'2' b'2' r
wanted rset r = begins b'2' b'5' r

abbrev pub judge_reply : ReplyType → Bytes → Answer
judge_reply t r = if wanted t r then fits else reply r

-- A line that announces more lines of the same reply.
abbrev pub continues : Bytes → Bool
continues r = elim (strip_prefix (codes "250-") r) [ none ↦ false | some r ↦ true ]

-- The loop for the reply to EHLO: what `mygetline` gives, and NULL behind the last line.
unfoldable pub wait_ehlo : List Bytes → Answer × List Bytes
wait_ehlo [] = (crashes, [])
wait_ehlo (r ∷ lines) =
    let later = wait_ehlo lines in if continues r then later else (judge_reply ehlo r, lines)

unfoldable pub checkwait_smtpreply : ReplyType → List Bytes → Answer × List Bytes
checkwait_smtpreply ehlo lines = wait_ehlo lines
checkwait_smtpreply t [] = (judge_reply t (codes "none / error / closed connection"), [])
checkwait_smtpreply t (r ∷ lines) = (judge_reply t r, lines)
