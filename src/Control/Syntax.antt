-- ===== src/Control/Syntax.antt =====
-- The syntax of control addresses, against the table of src/listcontrol.c.
use mlmmj.Base.{
  ◌≡◌, refl, inl, inr, false, none, List, [], ◌∷◌, ◌++◌, arith, if◌then◌else◌, Option-cases, Bytes,
  codes, All,
}
use mlmmj.CString.{strip_prefix, contains}
use mlmmj.Control.{Ctrl, CtrlCommand, ctrl_commands, command, take_param, find_command}

-- A parameter that no longer command takes for itself: no slash, and none of the words that follow
-- `confsub-` and `confunsub-` in the table.
pub record IsCookie (p : Bytes) : Type 0 where
  pub slash : contains b'/' p ≡ false
  pub digest : strip_prefix (codes "digest") p ≡ none
  pub nomail : strip_prefix (codes "nomail") p ≡ none
  pub both : strip_prefix (codes "both") p ≡ none

-- What is sent to a row's command, and what is to be read.
abbrev pub request : CtrlCommand → Bytes → Bytes
request c p = c.command ++ (if c.accepts_parameter then b'-' ∷ p else [])

abbrev pub IsRead : Bytes → CtrlCommand → Type 0
IsRead p c =
    find_command ctrl_commands (request c p)
    ≡ command c.ctrl (if c.accepts_parameter then p else [])

module _ (p : Bytes) (h : IsCookie p) where
  -- Every row of the table is read back as itself: no earlier row takes its requests, and the
  -- parameter arrives whole, if it is a cookie.
  pub ctrl_commands-IsRead : All (IsRead p) ctrl_commands
  unfolding find_command take_param strip_prefix
  ctrl_commands-IsRead = (
    refl,
    (
      refl,
      (
        refl,
        (
          refl,
          (
            rw h.slash refl,
            (
              rw h.slash refl,
              (
                rw h.slash refl,
                (
                  ground (arith, h.slash, h.digest, h.nomail, h.both),
                  (
                    refl,
                    (
                      refl,
                      (
                        refl,
                        (
                          rw h.slash refl,
                          (
                            rw h.slash refl,
                            (
                              ground (arith, h.slash, h.digest, h.nomail),
                              (
                                rw h.slash refl,
                                (
                                  rw h.slash refl,
                                  (
                                    rw h.slash refl,
                                    (
                                      rw h.slash refl,
                                      (
                                        rw h.slash refl,
                                        (
                                          rw h.slash refl,
                                          (refl, (refl, (rw h.slash refl, (refl, tt)))),
                                        ),
                                      ),
                                    ),
                                  ),
                                ),
                              ),
                            ),
                          ),
                        ),
                      ),
                    ),
                  ),
                ),
              ),
            ),
          ),
        ),
      ),
    ),
  )

take_param-slash :
    (c : CtrlCommand) (r : Bytes) (d : Ctrl) (p : Bytes)
    → take_param c r ≡ command d p
    → contains b'/' p ≡ false
unfolding take_param contains
take_param-slash c r d p h = ground arith

-- The parameter of a command never holds a slash.
pub find_command-slash :
    (table : List CtrlCommand) (controlstr : Bytes) (c : Ctrl) (p : Bytes)
    → find_command table controlstr ≡ command c p
    → contains b'/' p ≡ false
unfolding find_command
find_command-slash [] controlstr c p h = absurd (ground arith)
find_command-slash (row ∷ table) controlstr c p h =
    elim (Option-cases (strip_prefix row.command controlstr)) [
      | inl k ↦ find_command-slash table controlstr c p (ground arith)
      | inr (r, k) ↦ take_param-slash row r c p (ground arith)
    ]
