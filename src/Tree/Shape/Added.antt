-- ===== src/Tree/Shape/Added.antt =====
-- A list with something more in it.
use pmem.Prelude.{◌≡◌, refl, ap, sym, ◌∙◌, List, [], ◌++◌, append_assoc}

-- `extra` stands somewhere in the new list, and the rest is the old list.
pub record Added {ℓ} {A : Type ℓ} (old new extra : List A) : Type ℓ where
  pub before : List A
  pub after : List A
  pub old_e : old ≡ before ++ after
  pub new_e : new ≡ before ++ (extra ++ after)

module _ {ℓ} {A : Type ℓ} where
  pub Added-none : (xs : List A) → Added xs xs []
  Added-none xs = record { before = []; after = xs; old_e = refl; new_e = refl }

  pub Added-append :
      {old new extra : List A} (xs : List A)
      → Added old new extra
      → Added (old ++ xs) (new ++ xs) extra
  Added-append {old} {new} {extra} xs h = record {
    before = h.before;
    after = h.after ++ xs;
    old_e = ap (λ l. l ++ xs) h.old_e ∙ append_assoc h.before h.after xs;
    new_e =
        ap (λ l. l ++ xs) h.new_e
        ∙ append_assoc h.before (extra ++ h.after) xs
        ∙ ap (λ l. h.before ++ l) (append_assoc extra h.after xs);
  }

  pub Added-prepend :
      {old new extra : List A} (xs : List A)
      → Added old new extra
      → Added (xs ++ old) (xs ++ new) extra
  Added-prepend {old} {new} {extra} xs h = record {
    before = xs ++ h.before;
    after = h.after;
    old_e = ap (λ l. xs ++ l) h.old_e ∙ sym (append_assoc xs h.before h.after);
    new_e = ap (λ l. xs ++ l) h.new_e ∙ sym (append_assoc xs h.before (extra ++ h.after));
  }
