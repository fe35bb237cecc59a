-- ===== src/Tree/Rep/Grows.antt =====
-- Calls that add to a tree: the region that it lies in takes in addresses that were free, and the
-- objects outside stay alike.
use pmem.Prelude.{
  ◌≡◌, refl, ◌∙◌, ◌⊎◌, inl, inr, true, false, not, ◌&&◌, ◌||◌, none, some, arith, Bool-cases,
  Option-cases,
}
use pmem.Oid.{Oid, null}
use pmem.Memory.Objects.{Object, State}
use pmem.Tree.Rep.{Region, Within, Apart}
use pmem.Tree.Rep.Alike.{AlikeOn, AlikeObject-trans, AlikeOn-Within}
use pmem.Tree.Rep.Quiet.{Quiet, Quiet-AlikeOn}

abbrev pub nowhere : Region
nowhere q = false

pub nowhere-Within : (A : Region) → Within nowhere A
nowhere-Within A q found = absurd (cc found)

-- Nothing stands behind a null pointer.
abbrev pub outside : Region → Region
outside A q = not (A q || null q)

-- `A` with `D`, a part of it, changed to `E`.
abbrev pub swap : Region → Region → Region → Region
swap A D E q = E q || (A q && not (D q))

-- Something stands at each address of the region.
abbrev pub Owned : Region → State → Type 0
Owned A s = (q : Oid) → A q ≡ true → (o : Object) × (s.heap q ≡ some o) × (null q ≡ false)

pub record Grows (s : State) (A : Region) (u : State) (B : Region) : Type 0 where
  pub owned : Owned B u
  pub fresh : (q : Oid) → B q ≡ true → (A q ≡ true) ⊎ (s.heap q ≡ none)
  pub frame : AlikeOn (outside A) s u
  pub opened : u.opened ≡ s.opened
  pub registry : u.registry ≡ s.registry

pub Quiet-Owned : {A : Region} {s u : State} → Owned A s → Quiet s u → Owned A u
Quiet-Owned own h q found =
    let (o, at, alive) = own q found in
    let (o', at', same) = h.alike q o refl at in (o', at', alive)

pub Quiet-Grows : {A : Region} {s u : State} → Owned A s → Quiet s u → Grows s A u A
Quiet-Grows {A} own h = record {
  owned = Quiet-Owned own h;
  fresh = λ q found. inl found;
  frame = Quiet-AlikeOn (outside A) h;
  opened = h.opened;
  registry = h.registry;
}

module _ {s u : State} {A B : Region} (h : Grows s A u B) where
  -- What stood outside does not become part of it.
  pub Grows-outside : (q : Oid) (o : Object) → s.heap q ≡ some o → A q ≡ false → B q ≡ false
  Grows-outside q o at out = elim (Bool-cases (B q)) [
    | inl found ↦ elim (h.fresh q found) [
      | inl within ↦ absurd (cc (within, out))
      | inr free ↦ absurd (cc (free, at))
    ]
    | inr away ↦ away
  ]

pub Grows-trans : {s t u : State} {A B C : Region} → Grows s A t B → Grows t B u C → Grows s A u C
Grows-trans {s} {t} {u} {A} {B} {C} h k = record {
  owned = k.owned;
  fresh = λ q found. elim (k.fresh q found) [
    | inl within ↦ h.fresh q within
    | inr free ↦ elim (Option-cases (s.heap q)) [
      | inl free' ↦ inr free'
      | inr (o, at) ↦ elim (Bool-cases (A q)) [
        | inl within ↦ inl within
        | inr out ↦
            let alive = (k.owned q found).2 in
            let (o', at', same) = h.frame q o (ground (arith, out, alive)) at in
            absurd (cc (free, at'))
      ]
    ]
  ];
  frame = λ q o out at.
      let out' : A q ≡ false = ground arith in
      let (o', at', same) = h.frame q o out at in
      let away : B q ≡ false = Grows-outside h q o at out' in
      let (o'', at'', same') = k.frame q o' (ground (arith, away)) at' in
      (o'', at'', AlikeObject-trans o o' o'' same same');
  opened = k.opened ∙ h.opened;
  registry = k.registry ∙ h.registry;
}

-- The region `D` inside another grows.
module _ {s u : State} (D E : Region) (h : Grows s D u E) where
  pub swap-Within : (A C : Region) → Within C A → Within (swap C D E) (swap A D E)
  swap-Within A C w q found = elim (Bool-cases (E q)) [
    | inl new ↦ rw new refl
    | inr old ↦ rw (old, w q (ground arith)) (ground arith)
  ]

  pub grown-Within : (A : Region) → Within E (swap A D E)
  grown-Within A q found = rw found refl

  -- A part of `A` that is apart from `D`.
  pub kept-Within : (A C : Region) → Within C A → Apart C D → Within C (swap A D E)
  kept-Within A C w away q found = ground (arith, w q found, away q found)

  module _ (A : Region) (own : Owned A s) (within : Within D A) where
    pub Grows-swap : Grows s A u (swap A D E)
    Grows-swap = record {
      owned = λ q found. elim (Bool-cases (E q)) [
        | inl new ↦ h.owned q new
        | inr old ↦
            let (o, at, alive) = own q (ground arith) in
            let (o', at', same) = h.frame q o (ground (arith, alive)) at in (o', at', alive)
      ];
      fresh = λ q found. elim (Bool-cases (E q)) [
        | inl new ↦ elim (h.fresh q new) [ inl old ↦ inl (within q old) | inr free ↦ inr free ]
        | inr old ↦ inl (ground arith)
      ];
      frame =
          AlikeOn-Within s u
            (λ q out. elim (Bool-cases (D q)) [
              | inl found ↦ absurd (cc (within q found, out))
              | inr away ↦ ground arith
            ])
            h.frame;
      opened = h.opened;
      registry = h.registry;
    }

    pub in_swap : (q : Oid) → A q ≡ true → D q ≡ false → swap A D E q ≡ true
    in_swap q found away = ground arith

    -- What stands outside of a region that grows inside another stays outside.
    pub out_swap : (q : Oid) (o : Object) → s.heap q ≡ some o → A q ≡ false → swap A D E q ≡ false
    out_swap q o at out = Grows-outside Grows-swap q o at out

  pub Apart-grown : (C : Region) → Owned C s → Apart C D → Apart C E
  Apart-grown C own away q found =
      let (o, at, alive) = own q found in Grows-outside h q o at (away q found)

  -- A region apart from `D` has all its objects alike.
  pub kept-AlikeOn : (C : Region) → Owned C s → Apart C D → AlikeOn C s u
  kept-AlikeOn C own away =
      AlikeOn-Within s u (λ q found. ground (arith, away q found, (own q found).2)) h.frame

pub Apart-comm : (C D : Region) → Apart C D → Apart D C
Apart-comm C D away q found = elim (Bool-cases (C q)) [
  | inl here ↦ absurd (cc (found, away q here))
  | inr not_here ↦ not_here
]

-- A part of what the region has become.
pub Grows-less :
    {s u : State} {A B : Region} (C : Region) → Within C B → Grows s A u B → Grows s A u C
Grows-less C within h = record {
  owned = λ q found. h.owned q (within q found);
  fresh = λ q found. h.fresh q (within q found);
  frame = h.frame;
  opened = h.opened;
  registry = h.registry;
}
