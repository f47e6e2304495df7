-- ===== src/Reply/Laws.antt =====
-- What is read of the input and of the replies, src/mygetline.c and src/checkwait_smtpreply.c.
use mlmmj.Base.{
  ℕ, ◌≡◌, refl, true, false, some, List, [], ◌∷◌, ◌++◌, map, append_assoc, arith, Bytes, All,
}
use mlmmj.CString.{contains}
use mlmmj.Reply.{
  mygetline, mygetuntil, checkwait_smtpreply, Read, got, ehlo, crashes, judge_reply, continues,
  wait_ehlo,
}

mygetuntil-line :
    (buf : Bytes) (ch : ℕ) (l : Bytes) (reads : List Read)
    → contains b'\n' l ≡ false
    → mygetuntil (some b'\n') buf ch (map got l ++ got b'\n' ∷ reads)
      ≡ (some (buf ++ (l ++ b'\n' ∷ [])), reads)
unfolding mygetuntil contains
mygetuntil-line buf ch [] reads h = refl
mygetuntil-line buf ch (c ∷ l) reads h = ground (
  arith,
  mygetuntil-line (buf ++ c ∷ []) c l reads (ground (arith, h)),
  append_assoc buf (c ∷ []) (l ++ b'\n' ∷ []),
)

-- A line is read whole, its newline included, and nothing of what follows it.
pub mygetline-line :
    (ch : ℕ) (l : Bytes) (reads : List Read)
    → contains b'\n' l ≡ false
    → mygetline ch (map got l ++ got b'\n' ∷ reads) ≡ (some (l ++ b'\n' ∷ []), reads)
unfolding mygetline
mygetline-line ch l reads h = mygetuntil-line [] ch l reads h

abbrev pub Continues : Bytes → Type 0
Continues l = continues l ≡ true

wait_ehlo-lines :
    (ls : List Bytes) (r : Bytes) (more : List Bytes)
    → All Continues ls
    → continues r ≡ false
    → wait_ehlo (ls ++ r ∷ more) ≡ (judge_reply ehlo r, more)
unfolding wait_ehlo
wait_ehlo-lines [] r more h k = ground (arith, k)
wait_ehlo-lines (l ∷ ls) r more (h, hs) k = ground (arith, h, wait_ehlo-lines ls r more hs k)

-- The reply to EHLO is judged by its last line, and all of its lines are read, and no more.
pub checkwait_smtpreply-ehlo :
    (ls : List Bytes) (r : Bytes) (more : List Bytes)
    → All Continues ls
    → continues r ≡ false
    → checkwait_smtpreply ehlo (ls ++ r ∷ more) ≡ (judge_reply ehlo r, more)
unfolding checkwait_smtpreply
checkwait_smtpreply-ehlo ls r more h k = wait_ehlo-lines ls r more h k

-- A server that closes the connection before the last line of its reply to EHLO makes the program
-- read through a null pointer.
pub checkwait_smtpreply-crashes :
    (ls : List Bytes) → All Continues ls → checkwait_smtpreply ehlo ls ≡ (crashes, [])
unfolding checkwait_smtpreply wait_ehlo
checkwait_smtpreply-crashes [] h = refl
checkwait_smtpreply-crashes (l ∷ ls) (h, hs) = ground (arith, h, checkwait_smtpreply-crashes ls hs)
