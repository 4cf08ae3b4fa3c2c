-- ===== src/Capture/SigrokCli.antt =====
-- src/slidko/capture/sigrokcli.py: a timed capture by sigrok-cli. What runs it is a parameter: the return code and the
-- error output, if there is any.
use slidko.Prelude.{
  ℕ, String, concat, Option, none, some, List, [], ◌∷◌, if◌then◌else◌, any, codes, lower, contains,
  show, ℤ, is_nonzero,
}
use slidko.Result.{Result, Error, ok, err, device_not_found, driver_error}

unfoldable pub build_capture_args : String → ℕ → ℕ → String → List String
build_capture_args driver samplerate_hz duration_ms output_path =
    "sigrok-cli"
    ∷ "--driver"
    ∷ driver
    ∷ "--config"
    ∷ concat "samplerate=" (show samplerate_hz)
    ∷ "--time"
    ∷ show duration_ms
    ∷ "-O"
    ∷ "srzip"
    ∷ "-o"
    ∷ output_path
    ∷ []

abbrev pub device_not_found_markers : List String
device_not_found_markers = "no device" ∷ "no supported" ∷ "not found" ∷ []

-- `result.stderr or ""`
abbrev pub stderr_of : Option String → String
stderr_of none = ""
stderr_of (some stderr) = stderr

-- The exception for an error output.
unfoldable pub capture_error : String → Error
capture_error stderr =
    if any (λ marker. contains (codes marker) (lower stderr)) device_not_found_markers
    then device_not_found stderr
    else driver_error stderr

unfoldable pub capture :
    String → ℕ → ℕ → String → (List String → ℤ × Option String) → Result (Unit {0})
unfolding capture_error
capture driver samplerate_hz duration_ms output_path runner =
    let (returncode, stderr) =
      runner (build_capture_args driver samplerate_hz duration_ms output_path) in
    if is_nonzero returncode then err (capture_error (stderr_of stderr)) else ok tt
