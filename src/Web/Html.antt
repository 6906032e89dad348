-- ===== src/Web/Html.antt =====
-- The markup of a template, as it stands on the page. White space between elements is left out.
use oc.Base.{
  String, Option, none, some, Bool, true, false, List, [], ◌∷◌, ◌++◌, ◌≡◌, ◌==◌, ◌||◌,
  if◌then◌else◌, ◌&&◌, not,
}
use oc.Sql.Each.{Each, Distinct}
use oc.Sql.Run.{exists}

-- An attribute whose value is missing is not set.
abbrev pub Attribute : Type 0
Attribute = String × Option String

infixr 30 ◌▹◌
mutual
  pub data Node : Type 0 where
    text : String → Node
    element : (tag : String) → List Attribute → Nodes → Node
    -- an `@if` or `@for` block
    block : Nodes → Node

  pub data Nodes : Type 0 where
    end : Nodes
    ◌▹◌ : Node → Nodes → Nodes

abbrev pub attr : String → String → Attribute
attr name value = (name, some value)

-- a Boolean attribute
abbrev pub flag : String → Bool → Attribute
flag name b = (name, if b then some "" else none)

abbrev pub class : String → List Attribute
class names = attr "class" names ∷ []

-- an element that holds a text
abbrev pub labelled : String → List Attribute → String → Node
labelled tag attributes content = element tag attributes (text content ▹ end)

-- the values of the attributes of these names
unfoldable pub values : List String → List Attribute → List String
values names [] = []
values names ((n, v) ∷ attributes) =
    let rest = values names attributes in
    if is_one_of n names then elim v [ none ↦ rest | some x ↦ x ∷ rest ] else rest
  where
    is_one_of : String → List String → Bool
    is_one_of n [] = false
    is_one_of n (m ∷ ms) = n == m || is_one_of n ms

unfoldable mutual
  unfolding values

  pub node_values : List String → Node → List String
  node_values names (text s) = []
  node_values names (element tag attributes children) =
      values names attributes ++ nodes_values names children
  node_values names (block children) = nodes_values names children

  pub nodes_values : List String → Nodes → List String
  nodes_values names end = []
  nodes_values names (n ▹ ns) = node_values names n ++ nodes_values names ns

abbrev pub ids : Nodes → List String
ids page = nodes_values ("id" ∷ []) page

-- what a label, or an attribute of ARIA, names another element by
abbrev pub references : Nodes → List String
references page = nodes_values ("for" ∷ "aria-labelledby" ∷ "aria-describedby" ∷ []) page

-- whether an `input` stands in it
unfoldable mutual
  pub node_has_input : Node → Bool
  node_has_input (text s) = false
  node_has_input (element tag attributes children) = tag == "input" || nodes_have_input children
  node_has_input (block children) = nodes_have_input children

  pub nodes_have_input : Nodes → Bool
  nodes_have_input end = false
  nodes_have_input (n ▹ ns) = node_has_input n || nodes_have_input ns

abbrev is_empty : List String → Bool
is_empty [] = true
is_empty (s ∷ ss) = false

-- the names of `label` elements that neither name an element nor hold an `input`
unfoldable mutual
  unfolding values node_has_input nodes_have_input

  pub node_bare_labels : Node → List String
  node_bare_labels (text s) = []
  node_bare_labels (element tag attributes children) =
      let rest = nodes_bare_labels children in
      if tag == "label"
        && is_empty (values ("for" ∷ []) attributes)
        && not (nodes_have_input children)
      then "label" ∷ rest
      else rest
  node_bare_labels (block children) = nodes_bare_labels children

  pub nodes_bare_labels : Nodes → List String
  nodes_bare_labels end = []
  nodes_bare_labels (n ▹ ns) = node_bare_labels n ++ nodes_bare_labels ns

-- the id of an `input`, which is empty if there is none
abbrev id_of : List String → String
id_of [] = ""
id_of (i ∷ is) = i

-- the ids of the `input` elements that stand in no `label`
unfoldable mutual
  unfolding values

  pub node_loose_inputs : Node → List String
  node_loose_inputs (text s) = []
  node_loose_inputs (element tag attributes children) =
      let rest = nodes_loose_inputs children in
      if tag == "label"
      then []
      else if tag == "input"
      then id_of (values ("id" ∷ []) attributes) ∷ rest
      else rest
  node_loose_inputs (block children) = nodes_loose_inputs children

  pub nodes_loose_inputs : Nodes → List String
  nodes_loose_inputs end = []
  nodes_loose_inputs (n ▹ ns) = node_loose_inputs n ++ nodes_loose_inputs ns

-- what the labels name
abbrev pub targets : Nodes → List String
targets page = nodes_values ("for" ∷ []) page

-- Every reference leads to an element of the page, no two elements have the same id, every label
-- names an element or holds an input, and every input stands in a label or is named by one.
pub record Labelled (page : Nodes) : Type 0 where
  pub resolved : Each (λ r. exists (λ i. i == r) (ids page) ≡ true) (references page)
  pub unique : Distinct ◌==◌ (ids page)
  pub labels : nodes_bare_labels page ≡ []
  pub inputs : Each (λ i. exists (λ f. f == i) (targets page) ≡ true) (nodes_loose_inputs page)
