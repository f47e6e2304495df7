-- ===== src/Reply/Tests.antt =====
-- Concrete replies, and the theorems at them.
use mlmmj.Base.{◌≡◌, refl, false, some, [], ◌∷◌, codes, All}
use mlmmj.CString.{strip_prefix, contains}
use mlmmj.Reply.{
  mygetline, mygetuntil, checkwait_smtpreply, got, failed, rcptto, dot, reply, continues,
}
use mlmmj.Reply.Laws.{Continues}

refusal : checkwait_smtpreply rcptto (codes "550 no" ∷ []) ≡ (reply (codes "550 no"), [])
unfolding checkwait_smtpreply
refusal = refl

closed : checkwait_smtpreply dot [] ≡ (reply (codes "none / error / closed connection"), [])
unfolding checkwait_smtpreply
closed = refl

unterminated : mygetline 0 (got b'a' ∷ []) ≡ (some (codes "a"), [])
unfolding mygetline mygetuntil
unterminated = refl

-- The first byte is read once more where `read` fails.
repeated : mygetline 0 (got b'a' ∷ failed ∷ []) ≡ (some (codes "aa"), [])
unfolding mygetline mygetuntil
repeated = refl

announced : All Continues (codes "250-host" ∷ [])
unfolding strip_prefix
announced = (refl, tt)

last_line : continues (codes "250 8BITMIME") ≡ false
unfolding strip_prefix
last_line = refl

one_line : contains b'\n' (codes "220 host") ≡ false
unfolding contains
one_line = refl
