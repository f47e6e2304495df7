-- ===== src/Texts/Nodes.antt =====
-- Lines of a list text with conditionals, as README.listtexts has them, and what is to be seen of them.
use mlmmj.Base.{
  Bool, true, false, not, ◌≡◌, [], ◌∷◌, ◌++◌, if◌then◌else◌, Bytes, codes, all, is_empty,
}
use mlmmj.CString.{case_eq}
use mlmmj.Texts.{Site, is_name_char}
use mlmmj.Texts.Plain.{is_plain}
use mlmmj.Texts.Directives.{Target, on_action, on_reason, on_type, on_control}

-- What a conditional asks about the text or about a file in control/, and whether it is negative.
pub record Query : Type 0 where
  pub target : Target
  pub negative : Bool
  pub name : Bytes

mutual
  pub data Node : Type 0 where
    shown : Bytes → Node
    without_else : Query → Nodes → Node
    with_else : Query → Nodes → Nodes → Node

  pub data Nodes : Type 0 where
    end : Nodes
    then_node : Node → Nodes → Nodes

unfoldable pub keyword : Target → Bool → Bytes
keyword on_action false = codes "ifaction "
keyword on_reason false = codes "ifreason "
keyword on_type false = codes "iftype "
keyword on_control false = codes "ifcontrol "
keyword on_action true = codes "ifnaction "
keyword on_reason true = codes "ifnreason "
keyword on_type true = codes "ifntype "
keyword on_control true = codes "ifncontrol "

abbrev pub token_of : Query → Bytes
token_of q = keyword q.target q.negative ++ q.name

-- A directive, with what stands behind it.
abbrev pub directive : Bytes → Bytes → Bytes
directive token more = b'%' ∷ (token ++ b'%' ∷ more)

-- The nodes as they are written, with what stands behind them.
unfoldable mutual
  pub written_of : Node → Bytes → Bytes
  written_of (shown s) more = s ++ more
  written_of (without_else q nodes) more =
      directive (token_of q) (written nodes (directive (codes "endif") more))
  written_of (with_else q nodes others) more =
      directive (token_of q)
        (written nodes (directive (codes "else") (written others (directive (codes "endif") more))))

  pub written : Nodes → Bytes → Bytes
  written end more = more
  written (then_node node nodes) more = written_of node (written nodes more)

-- What a text is about.
pub record About : Type 0 where
  pub action : Bytes
  pub reason : Bytes
  pub type : Bytes

abbrev pub is_so : Site → About → Target → Bytes → Bool
is_so s a on_action name = case_eq name a.action
is_so s a on_reason name = case_eq name a.reason
is_so s a on_type name = case_eq name a.type
is_so s a on_control name = s.statctrl name

unfoldable pub is_chosen : Site → About → Query → Bool
is_chosen s a q = if q.negative then not (is_so s a q.target q.name) else is_so s a q.target q.name

-- What is to be seen of the nodes.
unfoldable mutual
  pub seen_of : Site → About → Node → Bytes
  seen_of s a (shown text) = text
  seen_of s a (without_else q nodes) = if is_chosen s a q then seen s a nodes else []
  seen_of s a (with_else q nodes others) =
      if is_chosen s a q then seen s a nodes else seen s a others

  pub seen : Site → About → Nodes → Bytes
  seen s a end = []
  seen s a (then_node node nodes) = seen_of s a node ++ seen s a nodes

-- A name of letters, digits, `_` and `-`.
abbrev pub IsName : Bytes → Type 0
IsName name = (all is_name_char name ≡ true) × (is_empty name ≡ false)

-- Text in which nothing is to be dealt with, and names that a conditional can have.
unfoldable mutual
  pub IsSoundNode : Node → Type 0
  IsSoundNode (shown text) = all is_plain text ≡ true
  IsSoundNode (without_else q nodes) = IsName q.name × IsSound nodes
  IsSoundNode (with_else q nodes others) = IsName q.name × IsSound nodes × IsSound others

  pub IsSound : Nodes → Type 0
  IsSound end = true ≡ true
  IsSound (then_node node nodes) = IsSoundNode node × IsSound nodes
