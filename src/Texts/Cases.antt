-- ===== src/Texts/Cases.antt =====
-- A line with conditionals in a conditional, and the witness.
use mlmmj.Base.{◌≡◌, refl, true, false, some, [], ◌∷◌, arith, Bytes, codes}
use mlmmj.CString.{str_eq, case_eq}
use mlmmj.Unistr.{unistr_to_utf8, unistr_append_utf8, utf8, encode_all, encode}
use mlmmj.Unistr.Escaped.{escaped, unistr_escaped_to_utf8}
use mlmmj.Texts.{done}
use mlmmj.Texts.Sources.{Text, new_text}
use mlmmj.Texts.Directives.{on_action, on_control}
use mlmmj.Texts.Reading.{get_processed_text_line}
use mlmmj.Texts.Plain.{reading}
use mlmmj.Texts.Nodes.{
  Query, Nodes, shown, without_else, with_else, end, then_node, written, keyword, About, is_chosen,
  seen, IsSound,
}
use mlmmj.Texts.Choosing.{get_processed_text_line-seen}
use mlmmj.Texts.Tests.{hikers}

abbrev joining : About
joining = record { action = codes "sub"; reason = codes "request"; type = codes "normal" }

abbrev of_joining : Text
of_joining = new_text (some (codes "sub")) (some (codes "request")) (some (codes "normal")) []

abbrev leaves : Query
leaves = record { target = on_action; negative = false; name = codes "unsub" }

abbrev is_open : Query
is_open = record { target = on_control; negative = true; name = codes "moderated" }

abbrev text : Bytes → Nodes → Nodes
text s nodes = then_node (shown s) nodes

abbrev greeting : Nodes
greeting = text (codes "Hi ") (
    then_node
      (with_else leaves
        (text (codes "bye") (then_node (without_else is_open (text (codes "!") end)) end))
        (text (codes "jo") (then_node (without_else is_open (text (codes ", post") end)) end)))
      (text (codes ".") end))

written-greeting :
    written greeting (codes "\n")
    ≡ codes
        "Hi %ifaction unsub%bye%ifncontrol moderated%!%endif%%else%jo%ifncontrol moderated%, post%endif%%endif%.\n"
unfolding written keyword
written-greeting = refl

seen-greeting : seen hikers joining greeting ≡ codes "Hi jo, post."
unfolding seen is_chosen case_eq str_eq
seen-greeting = refl

sound : IsSound greeting
unfolding IsSound
sound = (
  refl,
  (
    (
      (refl, refl),
      (refl, (((refl, refl), (refl, refl)), refl)),
      (refl, (((refl, refl), (refl, refl)), refl)),
    ),
    (refl, refl),
  ),
)

get_processed_text_line-seen_example :
    get_processed_text_line 1 200 hikers false
      (reading of_joining (written greeting (codes "\n") ∷ []) [])
    ≡ done (some (seen hikers joining greeting), reading of_joining [] [])
unfolding written keyword seen is_chosen case_eq str_eq unistr_escaped_to_utf8 escaped
    unistr_to_utf8 unistr_append_utf8 utf8 encode_all encode
get_processed_text_line-seen_example =
    get_processed_text_line-seen hikers of_joining greeting [] [] false 200 joining 0 refl
      (refl, refl, refl) refl sound refl refl (omega arith)
