-- ===== src/Addresses.antt =====
-- Subscriber files read in portions, src/getaddrsfromfd.c. An open file is what the system calls give,
-- and the descriptor's offset is an argument.
pub mod Portions
mod Tests
use mlmmj.Base.{
  ℕ, ◌+◌, ◌-◌, not, ◌||◌, Option, none, some, List, [], ◌∷◌, ◌++◌, leb, ◌==◌, if◌then◌else◌, Bytes,
  length, drop, is_empty,
}
use mlmmj.Subscribers.{Opened}

-- The loop over the mapping: `cur` is the line so far, `offset` the offset of `next`. It leaves when
-- the list holds `max` addresses, at the end of a line.
unfoldable pub take_addrs : ℕ → List Bytes → Bytes → ℕ → Bytes → List Bytes × ℕ
take_addrs max strs cur offset [] = (strs, offset)
take_addrs max strs cur offset (c ∷ next) =
    let more = take_addrs max strs (cur ++ c ∷ []) (offset + 1) next in
    let line = if c == b'\n' then cur else cur ++ c ∷ [] in
    let later = take_addrs max (strs ++ line ∷ []) [] (offset + 1) next in
    if c == b'\n' || is_empty next
    then (if leb max (length (strs ++ line ∷ [])) then (strs ++ line ∷ [], offset + 1) else later)
    else more

-- What is returned, and what it leaves: the addresses and the descriptor's offset.
pub record Portion : Type 0 where
  pub strs : List Bytes
  pub offset : ℕ
  pub left : ℕ

-- `none` is -1.
unfoldable pub getaddrsfromfd : Opened → ℕ → ℕ → List Bytes → Option Portion
getaddrsfromfd fd offset max strs =
    let (strs', offset') = take_addrs max strs [] offset (drop offset fd.content) in
    if not fd.stat_ok
    then none
    else if is_empty fd.content
    then some (record { strs = strs; offset = offset; left = 0 })
    else if not fd.mmap_ok
    then none
    else some (record { strs = strs'; offset = offset'; left = length fd.content - offset' })
