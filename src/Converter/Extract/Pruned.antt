-- ===== src/Converter/Extract/Pruned.antt =====
-- Hidden elements leave no trace in the text of a document (internal/converter/extractor/html.go).
use llm_file_gateway.Prelude.{
  ◌≡◌, refl, ap, ◌∙◌, Bool, true, false, ◌||◌, [], ◌++◌, arith, Bool-cases, inl, inr, if◌then◌else◌,
}
use llm_file_gateway.Prelude.Text.{String, ◌=ˢ◌}
use llm_file_gateway.Converter.Extract.{
  Node, Nodes, element, text_node, other_node, nil, cons, is_hidden, walk, walk_all, normalized,
  visible_text,
}

-- Nothing is written below a hidden element.
mutual
  unfolding walk

  walk_hidden : (lower : String → String) (node : Node) → walk lower true node ≡ []
  walk_hidden lower (element name children) = rw (walk_all_hidden lower children) refl
  walk_hidden lower (text_node bytes children) = walk_all_hidden lower children
  walk_hidden lower (other_node children) = walk_all_hidden lower children

  walk_all_hidden : (lower : String → String) (nodes : Nodes) → walk_all lower true nodes ≡ []
  walk_all_hidden lower nil = refl
  walk_all_hidden lower (cons node nodes) =
      rw (walk_hidden lower node) (walk_all_hidden lower nodes)

-- The elements whose content a reader does not see.
abbrev pub is_unseen : String → Bool
is_unseen name = name =ˢ "head" || (name =ˢ "script" || (name =ˢ "style" || name =ˢ "template"))

is_hidden-is_unseen : (name : String) → is_hidden name ≡ is_unseen name
unfolding is_hidden
is_hidden-is_unseen name = ground arith

-- The document without these elements.
mutual
  pub prune : (String → String) → Node → Node
  prune lower (element name children) = element name (prune_all lower children)
  prune lower (text_node bytes children) = text_node bytes (prune_all lower children)
  prune lower (other_node children) = other_node (prune_all lower children)

  pub prune_all : (String → String) → Nodes → Nodes
  prune_all lower nil = nil
  prune_all lower (cons (element name children) nodes) =
      if is_unseen (lower name)
      then prune_all lower nodes
      else cons (element name (prune_all lower children)) (prune_all lower nodes)
  prune_all lower (cons (text_node bytes children) nodes) =
      cons (text_node bytes (prune_all lower children)) (prune_all lower nodes)
  prune_all lower (cons (other_node children) nodes) =
      cons (other_node (prune_all lower children)) (prune_all lower nodes)

mutual
  unfolding walk prune

  walk-prune :
      (lower : String → String) (node : Node)
      → walk lower false (prune lower node) ≡ walk lower false node
  walk-prune lower (element name children) = elim (Bool-cases (is_hidden (lower name))) [
    | inl e ↦
        rw (e, walk_all_hidden lower (prune_all lower children), walk_all_hidden lower children)
          refl
    | inr e ↦ rw (e, walk_all-prune_all lower children) refl
  ]
  walk-prune lower (text_node bytes children) =
      ap (λ rest. bytes ++ rest) (walk_all-prune_all lower children)
  walk-prune lower (other_node children) = walk_all-prune_all lower children

  walk_all-prune_all :
      (lower : String → String) (nodes : Nodes)
      → walk_all lower false (prune_all lower nodes) ≡ walk_all lower false nodes
  walk_all-prune_all lower nil = refl
  walk_all-prune_all lower (cons (element name children) nodes) =
      elim (Bool-cases (is_unseen (lower name))) [
        | inl e ↦
            rw (e, is_hidden-is_unseen (lower name) ∙ e, walk_all_hidden lower children)
              (walk_all-prune_all lower nodes)
        | inr e ↦
            rw
              (
                e,
                is_hidden-is_unseen (lower name) ∙ e,
                walk_all-prune_all lower children,
                walk_all-prune_all lower nodes,
              )
              refl
      ]
  walk_all-prune_all lower (cons (text_node bytes children) nodes) =
      rw (walk_all-prune_all lower children, walk_all-prune_all lower nodes) refl
  walk_all-prune_all lower (cons (other_node children) nodes) =
      rw (walk_all-prune_all lower children, walk_all-prune_all lower nodes) refl

-- The text of an HTML document is that of the document without its elements head, script, style and template,
-- at whatever depth below the root they stand, whatever the case of their names.
pub visible_text-prune :
    (lower : String → String) (root : Node)
    → visible_text lower (prune lower root) ≡ visible_text lower root
unfolding visible_text
visible_text-prune lower root = ap normalized (walk-prune lower root)
