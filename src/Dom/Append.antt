-- ===== src/Dom/Append.antt =====
-- The steps of an `append_child` that returns.
use xmlparser.Prelude.{ℕ, Bool, true, false, not, ◌&&◌, ◌||◌, ◌==◌, ◌≡◌, ap, ◌∙◌, arith}
use xmlparser.Errors.{ok, bind-eq-ok, require-eq-ok}
use xmlparser.Dom.{
  Node, Heap, is_document, is_element, deref, is_ancestor_of, other_element, detach, push_child,
  append_child, same_owner,
}

-- What is known behind each of the tests.
pub record Admitted (this child : ℕ) (heap later : Heap) : Type 0 where
  pub node : Node
  pub added : Node
  pub at_this : deref heap this ≡ ok node
  pub at_child : deref heap child ≡ ok added
  pub no_document : is_document added.members ≡ false
  pub owned : same_owner node.owner added.owner ≡ true
  pub no_cycle : (child == this) ≡ false
  pub no_ancestor : is_ancestor_of heap child node ≡ ok false
  pub second : Bool
  pub others : other_element heap child node.children ≡ ok second
  pub one_root : (is_document node.members && is_element added.members && second) ≡ false
  pub detached : Heap
  pub at_detached : detach added.parent child heap ≡ ok detached
  pub pushed : push_child this child detached ≡ ok later

pub append_child-Admitted :
    (this child : ℕ) (heap later : Heap)
    → append_child this child heap ≡ ok later
    → Admitted this child heap later
unfolding append_child
append_child-Admitted this child heap later e =
    let (node, e₁, f₁) = bind-eq-ok (deref heap this) _ e in
    let (added, e₂, f₂) = bind-eq-ok (deref heap child) _ f₁ in
    let (g₁, f₃) = require-eq-ok (not (is_document added.members)) _ _ _ _ f₂ in
    let (g₂, f₄) = require-eq-ok (same_owner node.owner added.owner) _ _ _ _ f₃ in
    let (cycle, e₃, f₅) = bind-eq-ok (is_ancestor_of heap child node) _ f₄ in
    let (g₃, f₆) = require-eq-ok (not (child == this || cycle)) _ _ _ _ f₅ in
    let (second, e₄, f₇) = bind-eq-ok (other_element heap child node.children) _ f₆ in
    let (g₄, f₈) =
      require-eq-ok (not (is_document node.members && is_element added.members && second)) _ _ _ _
        f₇ in
    let (detached, e₅, f₉) = bind-eq-ok (detach added.parent child heap) _ f₈ in
    record {
      node = node;
      added = added;
      at_this = e₁;
      at_child = e₂;
      no_document = ground (arith, g₁);
      owned = g₂;
      no_cycle = ground (arith, g₃);
      no_ancestor = e₃ ∙ ap (λ (b : Bool). ok b) (ground (arith, g₃));
      second = second;
      others = e₄;
      one_root = ground (arith, g₄);
      detached = detached;
      at_detached = e₅;
      pushed = f₉;
    }
