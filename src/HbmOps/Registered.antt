-- ===== src/HbmOps/Registered.antt =====
-- When torch has none of the operators that `resolve_maintain_callable` tries by name.
use Prim.Native.String.{String}
use asu_ascend.Common.{
  ◌≡◌, ◌↔◌, ◌⊎◌, refl, sym, Bool, true, false, Option, none, List, [], ◌∷◌, All, inl, inr,
  Option-cases, arith,
}
use mathlib.Core.Path.{subst}
use asu_ascend.Common.Results.{ok, err, ◌>>=◌}
use asu_ascend.HbmOps.{
  Host, Error, attribute_error, runtime_error, Attribute, value_of, no_attribute, fails, Result,
  MaintainRunner, split, normalize_torch_op_name, walk_parts, callable_of, resolve_torch_op,
  or_next, try_candidates, default_maintain_op_candidates,
}

abbrev pub is_named : String → Bool
is_named String.[] = false
is_named (String.◌∷◌ c text) = true

-- The namespace and the name of each default operator, and how its candidate spells them.
abbrev pub default_ops : List (String × String)
default_ops =
    ("_C_ascend", "asu_hbm_index_maintain")
    ∷ ("_C_ascend", "AsuHbmIndexMaintain")
    ∷ ("custom_ops", "asu_hbm_index_maintain")
    ∷ ("custom_ops", "AsuHbmIndexMaintain")
    ∷ ("ascend", "asu_hbm_index_maintain")
    ∷ ("ascend", "AsuHbmIndexMaintain")
    ∷ []

abbrev pub Spelled : List String → List (String × String) → Type 0
Spelled [] [] = Unit
Spelled (candidate ∷ candidates) ((namespace, name) ∷ names) =
    (split b'.' (normalize_torch_op_name candidate) ≡ namespace ∷ name ∷ [])
    × (is_named namespace ≡ true)
    × (is_named name ≡ true)
    × Spelled candidates names
Spelled _ _ = ⊥

pub default_ops-Spelled : Spelled default_maintain_op_candidates default_ops
unfolding split normalize_torch_op_name
default_ops-Spelled = (
  refl,
  refl,
  refl,
  (
    refl,
    refl,
    refl,
    (refl, refl, refl, (refl, refl, refl, (refl, refl, refl, (refl, refl, refl, tt)))),
  ),
)

abbrev Caught : {A : Type 0} → Result A → Type 0
Caught result = (result ≡ err attribute_error) ⊎ (result ≡ err runtime_error)

module _ (host : Host) where
  open host use {FilePath, Function, Object, path_of, resolve, exists, rglob, attribute, loads, ops}

  -- An object without the attribute, or whose attribute cannot be made.
  abbrev pub Lacks : Object → String → Type 0
  Lacks object name = (attribute object name ≡ no_attribute) ⊎ (attribute object name ≡ fails)

  -- Neither the namespace nor, in it, the operator is there.
  abbrev pub Unregistered : Object → String × String → Type 0
  Unregistered torch_ops (namespace, name) =
      Lacks torch_ops namespace
      ⊎ ((found : Object) × (attribute torch_ops namespace ≡ value_of found) × Lacks found name)

  Attribute-cases :
      (a : Attribute Object)
      → ((found : Object) × (a ≡ value_of found)) ⊎ ((a ≡ no_attribute) ⊎ (a ≡ fails))
  Attribute-cases (value_of found) = inl (found, refl)
  Attribute-cases no_attribute = inr (inl refl)
  Attribute-cases fails = inr (inr refl)

  same_value : {a : Attribute Object} {x y : Object} → a ≡ value_of x → a ≡ value_of y → x ≡ y
  same_value p q = cc

  has_value :
      {object : Object} {name : String} (found : Object)
      → attribute object name ≡ value_of found
      → Lacks object name
      → ⊥
  has_value found p (inl h) = cc
  has_value found p (inr h) = cc

  callable_of-Caught : (object : Object) → Caught (callable_of host object) → ⊥
  callable_of-Caught object caught = elim (Option-cases (host.as_function object)) [
    | inl none_ ↦ elim caught [
      | inl h ↦ ground (arith, none_, h)
      | inr h ↦ ground (arith, none_, h)
    ]
    | inr (f, some_) ↦ elim caught [
      | inl h ↦ ground (arith, some_, h)
      | inr h ↦ ground (arith, some_, h)
    ]
  ]

  walk_parts-one :
      (object : Object) (name : String)
      → is_named name ≡ true
      → Caught (walk_parts host object (name ∷ []) >>= λ target. callable_of host target)
        ↔ Lacks object name
  unfolding walk_parts
  walk_parts-one object String.[] named = absurd (ground arith)
  walk_parts-one object (String.◌∷◌ c text) named =
      let name = String.◌∷◌ c text in
      let walked = walk_parts host object (name ∷ []) >>= λ target. callable_of host target in
      elim (Attribute-cases (attribute object name)) [
        | inl (found, is_found) ↦
            let run : walked ≡ callable_of host found = ground (arith, is_found) in
            (
              λ caught. absurd (callable_of-Caught found (subst Caught run caught)),
              λ lacks. absurd (has_value found is_found lacks),
            )
        | inr missing ↦ (λ caught. missing, λ lacks. caught_of missing)
      ]
    where
      caught_of :
          Lacks object (String.◌∷◌ c text)
          → Caught (
              walk_parts host object (String.◌∷◌ c text ∷ []) >>= λ target. callable_of host target)
      caught_of (inl h) = inl (ground (arith, h))
      caught_of (inr h) = inr (ground (arith, h))

  walk_parts-two :
      (object : Object) (namespace name : String)
      → is_named namespace ≡ true
      → is_named name ≡ true
      → Caught
          (walk_parts host object (namespace ∷ name ∷ []) >>= λ target. callable_of host target)
        ↔ Unregistered object (namespace, name)
  unfolding walk_parts
  walk_parts-two object String.[] name named named' = absurd (ground arith)
  walk_parts-two object (String.◌∷◌ c text) name named named' =
      let namespace = String.◌∷◌ c text in
      let walked =
        walk_parts host object (namespace ∷ name ∷ []) >>= λ target. callable_of host target in
      elim (Attribute-cases (attribute object namespace)) [
        | inl (found, is_found) ↦
            let (there, back) = walk_parts-one found name named' in
            let run : walked
                ≡ (walk_parts host found (name ∷ []) >>= λ target. callable_of host target) =
              ground (arith, is_found) in
            (
              λ caught. inr (found, is_found, there (subst Caught run caught)),
              λ un. elim un [
                | inl lacks ↦ absurd (has_value found is_found lacks)
                | inr (found', is_found', lacks) ↦
                    subst Caught (sym run)
                      (back (subst (λ x. Lacks x name) (same_value is_found' is_found) lacks))
              ],
            )
        | inr missing ↦ (λ caught. inl missing, λ un. caught_of missing)
      ]
    where
      caught_of :
          Lacks object (String.◌∷◌ c text)
          → Caught (
              walk_parts host object (String.◌∷◌ c text ∷ name ∷ []) >>= λ target.
              callable_of host target)
      caught_of (inl h) = inl (ground (arith, h))
      caught_of (inr h) = inr (ground (arith, h))

  or_next-none :
      (found : Result Function) (next : Result (Option (MaintainRunner Function)))
      → (or_next host found next ≡ ok none) ↔ (Caught found × (next ≡ ok none))
  or_next-none (ok function) next = (λ h. ground arith, λ h. not_ok h.0)
    where
      not_ok : Caught (ok function) → or_next host (ok function) next ≡ ok none
      not_ok (inl h) = ground (arith, h)
      not_ok (inr h) = ground (arith, h)
  or_next-none (err Error.attribute_error) next = (λ h. (inl refl, h), λ h. h.1)
  or_next-none (err Error.runtime_error) next = (λ h. (inr refl, h), λ h. h.1)
  or_next-none (err e) next = (λ h. ground arith, λ h. not_caught h.0)
    where
      not_caught : Caught {A = Function} (err e) → or_next host (err e) next ≡ ok none
      not_caught (inl h) = ground (arith, h)
      not_caught (inr h) = ground (arith, h)

  resolve_torch_op-Unregistered :
      (plugins : List FilePath) (candidate namespace name : String)
      → split b'.' (normalize_torch_op_name candidate) ≡ namespace ∷ name ∷ []
      → is_named namespace ≡ true
      → is_named name ≡ true
      → Caught (resolve_torch_op host plugins candidate)
        ↔ Unregistered (ops plugins) (namespace, name)
  unfolding resolve_torch_op
  resolve_torch_op-Unregistered plugins candidate namespace name spelled named named' =
      rw spelled (walk_parts-two (ops plugins) namespace name named named')

  pub try_candidates-none :
      (plugins : List FilePath) (candidates : List String) (names : List (String × String))
      → Spelled candidates names
      → (try_candidates host plugins candidates ≡ ok none) ↔ All (Unregistered (ops plugins)) names
  unfolding try_candidates
  try_candidates-none plugins [] [] spelled = (λ h. tt, λ h. refl)
  try_candidates-none plugins [] (name ∷ names) spelled = absurd spelled
  try_candidates-none plugins (candidate ∷ candidates) [] spelled = absurd spelled
  try_candidates-none plugins (candidate ∷ candidates) ((namespace, name) ∷ names) spelled =
      let (spells, named, named', others) = spelled in
      let (here, here') =
        resolve_torch_op-Unregistered plugins candidate namespace name spells named named' in
      let (step, step') =
        or_next-none (resolve_torch_op host plugins candidate)
          (try_candidates host plugins candidates) in
      let (rest, rest') = try_candidates-none plugins candidates names others in
      (
        λ h. let (missing, none_next) = step h in (here missing, rest none_next),
        λ h. step' (here' h.0, rest' h.1),
      )
