-- ===== src/Pipeline/Qwen/Paths.antt =====
-- brain/pipeline/qwen_slm.py: how `QwenSlmIntentResolver` finds the program and the model. The file
-- system is a parameter.
use nubjuk_brain.Prelude.{
  ◌≡◌, Bool-cases, inl, inr, Bool, true, false, ◌&&◌, ◌||◌, Option, none, some, [], ◌∷◌, Text, ◌==◌,
  if◌then◌else◌,
}
use nubjuk_brain.Errors.{Result, ok, raise, runtime}
use nubjuk_brain.Pipeline.Qwen.Process.{QwenSlmIntentResolver, new_resolver}

-- `Path(path).is_file()`, whether one of the bits of execution is set, `str(Path(path))`, and
-- `shutil.which`.
pub record Disk : Type 0 where
  pub is_file : Text → Bool
  pub is_executable : Text → Bool
  pub path_text : Text → Text
  pub which : Text → Option Text

-- `"/" in path`
unfoldable pub has_slash : Text → Bool
has_slash [] = false
has_slash (c ∷ path) = let rest = has_slash path in c == 0x2f || rest

unfoldable pub found : Option Text → Result Text
found none = raise (runtime "llama-cli not found")
found (some resolved) = ok resolved

-- A resolver with the paths that it uses.
pub record Located : Type 0 where
  pub llama_cli : Text
  pub model_path : Text
  pub resolver : QwenSlmIntentResolver

abbrev pub with_paths : Result Text → Result Text → Result Located
with_paths (raise e) model = raise e
with_paths (ok cli) (raise e) = raise e
with_paths (ok cli) (ok model) =
    ok (record { llama_cli = cli; model_path = model; resolver = new_resolver })

module _ (disk : Disk) where
  unfoldable pub resolve_executable : Text → Result Text
  resolve_executable path =
      if has_slash path
      then (if disk.is_file path && disk.is_executable path
          then ok (disk.path_text path)
          else raise (runtime "llama-cli is not executable"))
      else found (disk.which path)

  unfoldable pub resolve_model_path : Text → Result Text
  resolve_model_path path =
      if disk.is_file path then ok (disk.path_text path) else raise (runtime "SLM model not found")

  -- `QwenSlmIntentResolver(config)`, of its two paths
  unfoldable pub locate : Text → Text → Result Located
  locate llama_cli model_path =
      with_paths (resolve_executable llama_cli) (resolve_model_path model_path)

  abbrev IsLocated : Result Located → Type 0
  IsLocated (ok l) = Unit
  IsLocated (raise e) = ⊥

  -- A resolver is constructed only for a model that is a file.
  model_found : (cli model : Text) → IsLocated (locate cli model) → disk.is_file model ≡ true
  unfolding locate resolve_model_path
  model_found cli model h = elim (Bool-cases (disk.is_file model)) [
    | inl e ↦ e
    | inr e ↦ absurd (refused (resolve_executable cli) (rw e at h))
  ]
    where
      refused :
          (r : Result Text) → IsLocated (with_paths r (raise (runtime "SLM model not found"))) → ⊥
      refused (ok x) k = k
      refused (raise x) k = k
