-- ===== src/Scripts/Library.antt =====
-- `find_library_path` and `load_kernel` of lookup_simt_common.py. The file system and the loader of
-- shared libraries are a parameter.
use Prim.Native.String.{String}
use asu_ascend.Common.{
  ◌≡◌, Bool, true, not, Option, none, some, List, [], ◌∷◌, if◌then◌else◌, arith,
}
use asu_ascend.Common.Results.{ok, err, ◌>>=◌, ◌>>◌, raise_if, ok_of_bind}
use asu_ascend.Scripts.{Result, no_library, no_such_library, os_error, no_symbol}

-- `resolve` is `path.expanduser().resolve()`, `join` is `/`, and `rglob` gives its matches sorted. `cdll`
-- opens a library, and `symbol` is one of its exported functions.
pub record Files : Type 1 where
  pub FilePath : Type 0
  pub Library : Type 0
  pub Function : Type 0
  pub resolve : FilePath → FilePath
  pub join : FilePath → String → FilePath
  pub is_file : FilePath → Bool
  pub rglob : FilePath → String → List FilePath
  pub cdll : FilePath → Option Library
  pub symbol : Library → String → Option Function

pub record LoadedKernel (FilePath Library Function : Type 0) : Type 0 where
  pub library : Library
  pub function : Function
  pub path : FilePath

module _ (files : Files) where
  open files use {FilePath, Library, Function, resolve, join, is_file, rglob, cdll, symbol}

  abbrev first_of : List FilePath → Result FilePath
  first_of [] = err no_library
  first_of (path ∷ paths) = ok path

  unfoldable pub find_library_path : FilePath → Result FilePath
  find_library_path build_dir =
      let build_root = resolve build_dir in
      let expected = join (join build_root "lib") "libasu_hbm_index_lookup_simt_kernel.so" in
      if is_file expected
      then ok expected
      else first_of (rglob build_root "libasu_hbm_index_lookup_simt_kernel.so")

  abbrev chosen_path : Option FilePath → FilePath → Result FilePath
  chosen_path (some path) build_dir = ok path
  chosen_path none build_dir = find_library_path build_dir

  abbrev pub open_library : FilePath → Result Library
  open_library path = elim (cdll path) [ none ↦ err os_error | some library ↦ ok library ]

  abbrev pub exported : Library → Result Function
  exported library = elim (symbol library "asu_hbm_index_lookup_simt_do") [
    | none ↦ err no_symbol
    | some function ↦ ok function
  ]

  -- An absent `library_path` is searched for below `build_dir`.
  unfoldable pub load_kernel :
      Option FilePath → FilePath → Result (LoadedKernel FilePath Library Function)
  unfolding find_library_path
  load_kernel library_path build_dir = do
    chosen ← chosen_path library_path build_dir
    let path = resolve chosen
    raise_if (not (is_file path)) no_such_library
    library ← open_library path
    function ← exported library
    ok (record { library = library; function = function; path = path })

  -- Conditions: the call returned. The path of the kernel is a file, the library was opened at that
  -- path, and the function is the one that it exports under the operator's name.
  pub load_kernel_loads :
      (library_path : Option FilePath) (build_dir : FilePath)
      {kernel : LoadedKernel FilePath Library Function}
      → load_kernel library_path build_dir ≡ ok kernel
      → (is_file kernel.path ≡ true)
        × (cdll kernel.path ≡ some kernel.library)
        × (symbol kernel.library "asu_hbm_index_lookup_simt_do" ≡ some kernel.function)
  unfolding load_kernel
  load_kernel_loads library_path build_dir returned =
      let (chosen, found, rest) = ok_of_bind (chosen_path library_path build_dir) _ returned in
      loads chosen rest
    where
      loads :
          (chosen : FilePath) {kernel : LoadedKernel FilePath Library Function}
          → (do
            raise_if (not (is_file (resolve chosen))) no_such_library
            library ← open_library (resolve chosen)
            function ← exported library
            ok (record { library = library; function = function; path = resolve chosen }))
            ≡ ok kernel
          → (is_file kernel.path ≡ true)
            × (cdll kernel.path ≡ some kernel.library)
            × (symbol kernel.library "asu_hbm_index_lookup_simt_do" ≡ some kernel.function)
      loads chosen h = ground arith
