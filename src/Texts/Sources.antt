-- ===== src/Texts/Sources.antt =====
-- What a list text is read from, src/prepstdreply.c.
use mlmmj.Base.{
  ℕ, zero, suc, Bool, true, false, ◌||◌, Option, none, some, List, [], ◌∷◌, ◌==◌, if◌then◌else◌,
  Bytes, length,
}
use mlmmj.Texts.{Substs}
use mlmmj.Texts.Conditionals.{Conds}
use mlmmj.Unistr.Escaped.{unistr_escaped_to_utf8}

pub data WrapMode : Type 0 where
  wrap_word wrap_char wrap_user : WrapMode

-- A file or a list that is included. `lines` is what it gives next, and `limit` how many more lines are read; a
-- negative limit is none.
pub record Source : Type 0 where
  pub upcoming : Option Bytes
  pub processedlen : ℕ
  pub processedwidth : ℕ
  pub prefix : Option Bytes
  pub prefixlen : ℕ
  pub prefixwidth : ℕ
  pub suffix : Option Bytes
  pub lines : List Bytes
  pub transparent : Bool
  pub limit : Option ℕ

-- The innermost source first. `mail` is the registered mail, with its lines where it opens. `wrapwidth` is an `int`
-- as its remainder by 2 ^ 32.
pub record Text : Type 0 where
  pub action : Option Bytes
  pub reason : Option Bytes
  pub type : Option Bytes
  pub sources : List Source
  pub substs : Substs
  pub mail : Option (Option (List Bytes))
  pub fmts : List (Bytes × List Bytes)
  pub wrapindent : ℕ
  pub wrapwidth : ℕ
  pub wrapmode : WrapMode
  pub is_wide : Bool
  pub zerowidth : Option Bytes
  pub conds : Conds

abbrev pub new_source : List Bytes → Source
new_source lines = record {
  upcoming = none;
  processedlen = 0;
  processedwidth = 0;
  prefix = none;
  prefixlen = 0;
  prefixwidth = 0;
  suffix = none;
  lines = lines;
  transparent = false;
  limit = none;
}

-- `open_text`, for the lines of the file that it opens.
abbrev pub new_text : Option Bytes → Option Bytes → Option Bytes → List Bytes → Text
new_text action reason type lines = record {
  action = action;
  reason = reason;
  type = type;
  sources = new_source lines ∷ [];
  substs = [];
  mail = none;
  fmts = [];
  wrapindent = 0;
  wrapwidth = 0;
  wrapmode = wrap_word;
  is_wide = false;
  zerowidth = none;
  conds = record { stack = []; skip = none };
}

-- A line that is worked on, cut at the position, with the width of what stands before it.
pub record Position : Type 0 where
  pub text : Text
  pub before : Bytes
  pub after : Bytes
  pub width : ℕ
  pub skipwhite : Bool

abbrev pub spaces : ℕ → Bytes
spaces zero = []
spaces (suc n) = b' ' ∷ spaces n

-- `begin_new_source_file`, with the lines of the file. The line has been cut at the position, so nothing behind it
-- is saved.
unfoldable pub begin_new_source_file : Option (List Bytes) → Bool → Position → Position
unfolding unistr_escaped_to_utf8
begin_new_source_file none transparent p = record p { after = [] }
begin_new_source_file (some []) transparent p = record p { after = [] }
begin_new_source_file (some (line ∷ lines)) transparent p =
    let src : Source = record (new_source lines) {
      prefix = some (spaces p.width);
      prefixlen = length p.before;
      prefixwidth = p.width;
      transparent = transparent;
    } in
    record p {
      text = record (p.text) { sources = src ∷ p.text.sources };
      after = if transparent then line else unistr_escaped_to_utf8 line;
    }

abbrev pub starts_line_end : Bytes → Bool
starts_line_end [] = true
starts_line_end (c ∷ s) = c == b'\r' || c == b'\n'

abbrev pub nonempty : Bytes → Option Bytes
nonempty [] = none
nonempty (c ∷ s) = some (c ∷ s)

-- `begin_new_formatted_source`, with the items of the list; `behind` is what stands behind the directive.
unfoldable pub begin_new_formatted_source : List Bytes → Bytes → Position → Position
unfolding unistr_escaped_to_utf8
begin_new_formatted_source [] behind p = record p { before = []; after = []; width = 0 }
begin_new_formatted_source (item ∷ items) behind p =
    let src : Source = record (new_source items) {
      prefix = nonempty p.before;
      prefixlen = length p.before;
      prefixwidth = p.width;
      suffix = if starts_line_end behind then none else some behind;
    } in
    record p {
      text = record (p.text) { sources = src ∷ p.text.sources };
      after = unistr_escaped_to_utf8 item;
    }
