-- ===== src/HbmOps.antt =====
-- ops/scripts/asu_hbm_index_common.py, its second half: which library or torch operator is called. The
-- file system, the loader of libraries, Python's modules and torch are a parameter.
pub mod Registered
pub mod Resolve
pub mod Validate
pub mod Bench
mod Tests
use Prim.Native.Char.{code}
use Prim.Native.String.{String}
use asu_ascend.Common.{
  ℕ, ◌≡◌, Bool, true, false, not, Option, none, some, List, [], ◌∷◌, ◌==◌, if◌then◌else◌,
}
use asu_ascend.Common.Results.{Fallible, ok, err, ◌>>=◌, ◌>>◌, raise_if}
use asu_ascend.Hbm

-- The arrays that are compared.
pub data OpArray : Type 0 where
  slot_out index slot_to_index free_slots free_head : OpArray

-- What is raised: FileNotFoundError, OSError, ImportError, AttributeError, TypeError, the two
-- ValueErrors of a name's form and those of a negative size or a text that is no number, the
-- RuntimeErrors, ZeroDivisionError; an array that is not the expected one; and what the expectations and
-- the makers of cases raise.
pub data Error : Type 0 where
  lookup_library_missing maintain_library_missing plugin_missing os_error import_error : Error
  attribute_error not_callable call_format op_format unresolved_op no_maintain_op : Error
  not_four_tensors negative_size not_a_number no_stream runtime_error zero_division : Error
  mismatch : OpArray → Error
  hbm_error : Hbm.Error → Error

abbrev pub Result {ℓ} : Type ℓ → Type ℓ
Result A = Fallible Error A

-- What `getattr` does: the value, AttributeError, or the RuntimeError of an operator that cannot be made.
pub data Attribute (Object : Type 0) : Type 0 where
  value_of : Object → Attribute Object
  no_attribute fails : Attribute Object

-- `cdll` opens a shared library, of which `symbol` takes a function. `loads` tells whether
-- `torch.ops.load_library` loads a plugin, and `ops` is `torch.ops` once plugins are loaded;
-- `as_function` is `none` where the object is not callable.
pub record Host : Type 1 where
  pub FilePath : Type 0
  pub Library : Type 0
  pub Function : Type 0
  pub Object : Type 0
  pub path_of : String → FilePath
  pub resolve : FilePath → FilePath
  pub exists : FilePath → Bool
  pub rglob : FilePath → String → List FilePath
  pub cdll : FilePath → Option Library
  pub symbol : Library → String → Option Function
  pub import_module : String → Option Object
  pub attribute : Object → String → Attribute Object
  pub as_function : Object → Option Function
  pub loads : FilePath → Bool
  pub ops : List FilePath → Object

-- An option that is absent or empty counts as not given.
abbrev pub given : Option String → Option String
given none = none
given (some String.[]) = none
given (some (String.◌∷◌ c text)) = some (String.◌∷◌ c text)

-- `text.split(separator)`, for a separator of one character.
abbrev pub with_first : {A : Type 0} → (A → A) → A → List A → List A
with_first f x [] = f x ∷ []
with_first f x (y ∷ ys) = f y ∷ ys

unfoldable pub split : ℕ → String → List String
split separator String.[] = "" ∷ []
split separator (String.◌∷◌ c text) =
    let rest = split separator text in
    if code c == separator then "" ∷ rest else with_first (λ part. String.◌∷◌ c part) "" rest

-- `text.partition(":")`, and `none` where there is no colon.
unfoldable pub partition_colon : String → Option (String × String)
partition_colon String.[] = none
partition_colon (String.◌∷◌ c text) =
    let rest = partition_colon text in
    if code c == b':'
    then some ("", text)
    else elim rest [ none ↦ none | some (front, back) ↦ some (String.◌∷◌ c front, back) ]

-- `"{}.{}".format(*spec.split("::", 1))` where the spec has a `::`.
unfoldable pub normalize_torch_op_name : String → String
normalize_torch_op_name String.[] = ""
normalize_torch_op_name (String.◌∷◌ c String.[]) = String.◌∷◌ c ""
normalize_torch_op_name (String.◌∷◌ c (String.◌∷◌ d text)) =
    let rest = normalize_torch_op_name (String.◌∷◌ d text) in
    if code c == b':'
    then (if code d == b':' then String.◌∷◌ "." text else String.◌∷◌ c rest)
    else String.◌∷◌ c rest

pub data MaintainRunner (Function : Type 0) : Type 0 where
  direct : Function → MaintainRunner Function
  python : Function → MaintainRunner Function

-- DEFAULT_MAINTAIN_OP_CANDIDATES
abbrev pub default_maintain_op_candidates : List String
default_maintain_op_candidates =
    "_C_ascend.asu_hbm_index_maintain" ∷ "_C_ascend.AsuHbmIndexMaintain"
    ∷ "custom_ops.asu_hbm_index_maintain" ∷ "custom_ops.AsuHbmIndexMaintain"
    ∷ "ascend.asu_hbm_index_maintain" ∷ "ascend.AsuHbmIndexMaintain" ∷ []

module _ (host : Host) where
  open host use {
    FilePath, Function, Object, path_of, resolve, exists, rglob, cdll, symbol, import_module,
    attribute, as_function, loads, ops,
  }

  unfoldable pub find_lookup_library : FilePath → Option String → Result FilePath
  find_lookup_library build_dir explicit_path = elim (given explicit_path) [
    | some text ↦
        let path = resolve (path_of text) in
        if exists path then ok path else err lookup_library_missing
    | none ↦ elim (rglob (resolve build_dir) "libasu_hbm_index_lookup_aiv*.so") [
      | [] ↦ err lookup_library_missing
      | path ∷ paths ↦ ok path
    ]
  ]

  unfoldable pub find_maintain_library : FilePath → Option String → Result (Option FilePath)
  find_maintain_library build_dir explicit_path = elim (given explicit_path) [
    | some text ↦
        let path = resolve (path_of text) in
        if exists path then ok (some path) else err maintain_library_missing
    | none ↦
        let search_root = resolve build_dir in
        if not (exists search_root)
        then ok none
        else (elim (rglob search_root "libasu_hbm_index_maintain_aicpu*.so") [
          | [] ↦ ok none
          | path ∷ paths ↦ ok (some path)
        ])
  ]

  -- `ctypes.CDLL` and the function of a library.
  abbrev pub load_function : FilePath → String → Result Function
  load_function path name = elim (cdll path) [
    | none ↦ err os_error
    | some library ↦ elim (symbol library name) [ none ↦ err attribute_error | some f ↦ ok f ]
  ]

  abbrev pub callable_of : Object → Result Function
  callable_of object = elim (as_function object) [ none ↦ err not_callable | some f ↦ ok f ]

  abbrev pub getattr : Object → String → Result Object
  getattr object name = elim (attribute object name) [
    | value_of value ↦ ok value
    | no_attribute ↦ err attribute_error
    | fails ↦ err runtime_error
  ]

  -- The case of a spec that is given.
  unfoldable pub resolve_python_callable : String → Result Function
  unfolding partition_colon
  resolve_python_callable spec = elim (partition_colon spec) [
    | none ↦ err call_format
    | some (module_name, function_name) ↦ elim (import_module module_name) [
      | none ↦ err import_error
      | some module_ ↦ getattr module_ function_name >>= λ function. callable_of function
    ]
  ]

  -- The plugins of a list of paths: those that are loaded, in order.
  unfoldable pub load_plugins : List String → Result (List FilePath)
  load_plugins [] = ok []
  load_plugins (item ∷ items) = do
    let path = resolve (path_of item)
    raise_if (not (exists path)) plugin_missing
    raise_if (not (loads path)) os_error
    paths ← load_plugins items
    ok (path ∷ paths)

  unfoldable pub load_op_plugin : Option String → Result (List FilePath)
  unfolding load_plugins split
  load_op_plugin library_path = elim (given library_path) [
    | none ↦ ok []
    | some text ↦ load_plugins (split b',' text)
  ]

  unfoldable pub walk_parts : Object → List String → Result Object
  walk_parts target [] = ok target
  walk_parts target (String.[] ∷ parts) = err op_format
  walk_parts target (String.◌∷◌ c text ∷ parts) =
      getattr target (String.◌∷◌ c text) >>= λ value. walk_parts value parts

  -- The walk from `torch.ops` along the parts of the name.
  unfoldable pub resolve_torch_op : List FilePath → String → Result Function
  unfolding normalize_torch_op_name split walk_parts
  resolve_torch_op plugins spec =
      walk_parts (ops plugins) (split b'.' (normalize_torch_op_name spec)) >>= λ target.
      callable_of target

  -- `except AttributeError` around an operator that was asked for.
  abbrev asked_op : Result Function → Result (Option (MaintainRunner Function))
  asked_op (ok function) = ok (some (python function))
  asked_op (err attribute_error) = err unresolved_op
  asked_op (err e) = err e

  -- `except (AttributeError, RuntimeError): continue`, and what follows.
  abbrev or_next :
      Result Function
      → Result (Option (MaintainRunner Function))
      → Result (Option (MaintainRunner Function))
  or_next (ok function) next = ok (some (python function))
  or_next (err attribute_error) next = next
  or_next (err runtime_error) next = next
  or_next (err e) next = err e

  unfoldable pub try_candidates :
      List FilePath → List String → Result (Option (MaintainRunner Function))
  unfolding resolve_torch_op
  try_candidates plugins [] = ok none
  try_candidates plugins (candidate ∷ candidates) =
      let rest = try_candidates plugins candidates in
      or_next (resolve_torch_op plugins candidate) rest

  abbrev pub by_name :
      List FilePath → Option String → Option String → Result (Option (MaintainRunner Function))
  by_name plugins (some spec) maintain_op =
      resolve_python_callable spec >>= λ function. ok (some (python function))
  by_name plugins none (some spec) = asked_op (resolve_torch_op plugins spec)
  by_name plugins none none = try_candidates plugins default_maintain_op_candidates

  unfoldable pub resolve_maintain_callable :
      Option String
      → Option String
      → Option String
      → Option String
      → FilePath
      → Result (Option (MaintainRunner Function))
  unfolding load_op_plugin find_maintain_library resolve_python_callable try_candidates
  resolve_maintain_callable maintain_call maintain_op op_plugin_lib maintain_lib
        maintain_build_dir =
      do
        plugins ← load_op_plugin op_plugin_lib
        found ← find_maintain_library maintain_build_dir maintain_lib
        elim found [
          | some path ↦ load_function path "asu_hbm_index_maintain_do" >>= λ function.
              ok (some (direct function))
          | none ↦ by_name plugins (given maintain_call) (given maintain_op)
        ]
