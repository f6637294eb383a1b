-- ===== src/HbmOps/Resolve.antt =====
-- When no maintain operator is found: the search is exhaustive.
use Prim.Native.String.{String}
use asu_ascend.Common.{
  ◌≡◌, ◌↔◌, ◌⊎◌, refl, sym, ◌∙◌, true, false, not, Option, none, some, List, [], ◌∷◌, map, All, inl,
  inr, Bool-cases, Option-cases, arith,
}
use asu_ascend.Common.Results.{ok, err, ◌>>=◌, raise_if, ok_of_bind}
use asu_ascend.HbmOps.{
  Host, Error, plugin_missing, os_error, Result, direct, given, split, resolve_torch_op, asked_op,
  load_function, load_plugins, load_op_plugin, find_maintain_library, resolve_python_callable,
  by_name, default_maintain_op_candidates, resolve_maintain_callable,
}
use asu_ascend.HbmOps.Registered.{
  default_ops, default_ops-Spelled, Unregistered, try_candidates-none,
}

-- The items of a comma-separated option; none where it is absent or empty.
abbrev pub plugin_items : Option String → List String
plugin_items option = elim (given option) [ none ↦ [] | some text ↦ split b',' text ]

module _ (host : Host) where
  open host use {FilePath, Function, path_of, resolve, exists, rglob, loads, ops}

  abbrev pub plugin_paths : Option String → List FilePath
  plugin_paths option = map (λ item. resolve (path_of item)) (plugin_items option)

  -- A plugin that exists and loads.
  abbrev pub Loads : FilePath → Type 0
  Loads path = (exists path ≡ true) × (loads path ≡ true)

  -- Nothing was built: there is no such directory, or no library below it.
  abbrev pub NotBuilt : FilePath → Type 0
  NotBuilt build_dir =
      (exists (resolve build_dir) ≡ false)
      ⊎ (rglob (resolve build_dir) "libasu_hbm_index_maintain_aicpu*.so" ≡ [])

  asked_op_some : (found : Result Function) → asked_op host found ≡ ok none → ⊥
  asked_op_some (ok function) h = ground arith
  asked_op_some (err Error.attribute_error) h = ground arith
  asked_op_some (err e) h = ground arith

  by_name-none :
      (plugins : List FilePath) (call op : Option String)
      → (by_name host plugins call op ≡ ok none)
        ↔ ((call ≡ none) × (op ≡ none) × All (Unregistered host (ops plugins)) default_ops)
  by_name-none plugins (some spec) op = (
    λ h.
        let (function, resolved, found) = ok_of_bind (resolve_python_callable host spec) _ h in
        absurd (ground (arith, found)),
    λ h. ground (arith, h.0),
  )
  by_name-none plugins none (some spec) =
      (λ h. absurd (asked_op_some (resolve_torch_op host plugins spec) h), λ h. ground (arith, h.1))
  by_name-none plugins none none =
      let (there, back) =
        try_candidates-none host plugins default_maintain_op_candidates default_ops
          default_ops-Spelled in
      (λ h. (refl, refl, there h), λ h. back h.2)

  load_plugins-Loads :
      (items : List String) {plugins : List FilePath}
      → load_plugins host items ≡ ok plugins
      → (plugins ≡ map (λ item. resolve (path_of item)) items)
        × All Loads (map (λ item. resolve (path_of item)) items)
  unfolding load_plugins
  load_plugins-Loads [] h = (ground (arith, h), tt)
  load_plugins-Loads (item ∷ items) h =
      let path = resolve (path_of item) in
      let (done, here, after) = ok_of_bind (raise_if (not (exists path)) plugin_missing) _ h in
      let (done', loaded, rest) = ok_of_bind (raise_if (not (loads path)) os_error) _ after in
      let (paths, run, all) = ok_of_bind (load_plugins host items) _ rest in
      let (same, others) = load_plugins-Loads items run in
      (ground (arith, all, same), ((ground (arith, here), ground (arith, loaded)), others))

  Loads-load_plugins :
      (items : List String)
      → All Loads (map (λ item. resolve (path_of item)) items)
      → load_plugins host items ≡ ok (map (λ item. resolve (path_of item)) items)
  unfolding load_plugins
  Loads-load_plugins [] all = refl
  Loads-load_plugins (item ∷ items) all =
      ground (arith, all.0.0, all.0.1, Loads-load_plugins items all.1)

  load_op_plugin_items :
      (option : Option String)
      → load_op_plugin host option ≡ load_plugins host (plugin_items option)
  unfolding load_op_plugin load_plugins
  load_op_plugin_items option = elim (Option-cases (given option)) [
    | inl absent ↦ ground (arith, absent)
    | inr (text, is_given) ↦ ground (arith, is_given)
  ]

  find_maintain_library-none :
      (build_dir : FilePath) (option : Option String)
      → (find_maintain_library host build_dir option ≡ ok none)
        ↔ ((given option ≡ none) × NotBuilt build_dir)
  unfolding find_maintain_library
  find_maintain_library-none build_dir option = elim (Option-cases (given option)) [
    | inr (text, is_given) ↦ (
      λ h. elim (Bool-cases (exists (resolve (path_of text)))) [
        | inl there ↦ absurd (ground (arith, is_given, there, h))
        | inr gone ↦ absurd (ground (arith, is_given, gone, h))
      ],
      λ h. ground (arith, is_given, h.0),
    )
    | inl absent ↦ elim (Bool-cases (exists (resolve build_dir))) [
      | inr gone ↦ (λ h. (absent, inl gone), λ h. ground (arith, absent, gone))
      | inl there ↦ (
        λ h. (
          absent,
          inr (only_empty (rglob (resolve build_dir) _) (ground (arith, absent, there, h))),
        ),
        λ h. elim h.1 [
          | inl gone ↦ ground (arith, there, gone)
          | inr empty ↦ ground (arith, absent, there, empty)
        ],
      )
    ]
  ]
    where
      only_empty :
          (paths : List FilePath)
          → ◌≡◌ {A = Result (Option FilePath)}
              (elim paths [ [] ↦ ok none | path ∷ rest ↦ ok (some path) ])
              (ok none)
          → paths ≡ []
      only_empty [] h = refl
      only_empty (path ∷ rest) h = ground (arith, h)

  -- No operator is found, and none is reported to be wrong, exactly if every plugin that is given exists
  -- and loads, no library is given and none was built, neither a wrapper nor an operator is asked for,
  -- and of each of the six default operators either the namespace or the name is missing from torch, or
  -- cannot be made, once the plugins are loaded. An option that is empty counts as absent.
  pub resolve_maintain_callable-none :
      (maintain_call maintain_op op_plugin_lib maintain_lib : Option String) (build_dir : FilePath)
      → (resolve_maintain_callable host maintain_call maintain_op op_plugin_lib maintain_lib
            build_dir
          ≡ ok none)
        ↔ (All Loads (plugin_paths op_plugin_lib)
            × (given maintain_lib ≡ none)
            × NotBuilt build_dir
            × (given maintain_call ≡ none)
            × (given maintain_op ≡ none)
            × All (Unregistered host (ops (plugin_paths op_plugin_lib))) default_ops)
  unfolding resolve_maintain_callable
  resolve_maintain_callable-none maintain_call maintain_op op_plugin_lib maintain_lib build_dir =
      let items = plugin_items op_plugin_lib in
      let paths = plugin_paths op_plugin_lib in
      let as_items = load_op_plugin_items op_plugin_lib in
      let (library, library') = find_maintain_library-none build_dir maintain_lib in
      let (named, named') = by_name-none paths (given maintain_call) (given maintain_op) in
      (
        λ h.
            let (plugins, load, after_plugins) =
              ok_of_bind (load_op_plugin host op_plugin_lib) _ h in
            let (found, search_, after_search) =
              ok_of_bind (find_maintain_library host build_dir maintain_lib) _ after_plugins in
            let (same, loaded) = load_plugins-Loads items (sym as_items ∙ load) in
            elim (Option-cases found) [
              | inr (path, is_path) ↦ absurd (no_direct plugins found path is_path after_search)
              | inl is_none ↦
                  let (absent, not_built) = library (ground (arith, is_none, search_)) in
                  let (no_call, no_op, unregistered) =
                    named (ground (arith, is_none, after_search, same)) in
                  (loaded, absent, not_built, no_call, no_op, unregistered)
            ],
        λ h.
            let (loaded, absent, not_built, no_call, no_op, unregistered) = h in
            let load = as_items ∙ Loads-load_plugins items loaded in
            ground
              (arith, load, library' (absent, not_built), named' (no_call, no_op, unregistered)),
      )
    where
      no_direct :
          (plugins : List FilePath) (found : Option FilePath) (path : FilePath)
          → found ≡ some path
          → (elim found [
            | some path ↦ load_function host path "asu_hbm_index_maintain_do" >>= λ function.
                ok (some (direct function))
            | none ↦ by_name host plugins (given maintain_call) (given maintain_op)
          ])
            ≡ ok none
          → ⊥
      no_direct plugins found path is_path h =
          let run : (load_function host path "asu_hbm_index_maintain_do" >>= λ function.
          ok (some (direct function)))
              ≡ ok none =
            rw is_path at h in
          let (function, loads_it, direct_) =
            ok_of_bind (load_function host path "asu_hbm_index_maintain_do") _ run in
          ground (arith, direct_)
