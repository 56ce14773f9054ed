-- ===== src/Decryption/Formats.antt =====
-- The data formats of internal/decryptor/decryptor.go, their markers and how they are detected.
use kustomize_controller.Base.{String, if◌then◌else◌, List, [], ◌∷◌, Option, none, some}
use kustomize_controller.Base.Text.{has_substring}

-- `formats.Format`
pub data Format : Type 0 where
  binary dotenv ini json yaml : Format

-- `sopsFormatToString[f]`
abbrev pub format_to_string : Format → String
format_to_string binary = "binary"
format_to_string dotenv = "dotenv"
format_to_string ini = "INI"
format_to_string json = "JSON"
format_to_string yaml = "YAML"

-- `sopsFormatToMarkerBytes[f]`
abbrev pub format_to_marker : Format → String
format_to_marker binary = "\"mac\": \"ENC["
format_to_marker dotenv = "sops_mac=ENC["
format_to_marker ini = "[sops]"
format_to_marker json = "\"mac\": \"ENC["
format_to_marker yaml = "mac: ENC["

-- `detectFormatFromMarkerBytes(b)`, where `unsupportedFormat` is `none`. Go iterates over the map of
-- the markers in an order of its own choice, which is the first argument.
unfoldable pub detect_format : List Format → String → Option Format
detect_format [] b = none
detect_format (f ∷ fs) b =
    let rest = detect_format fs b in if has_substring b (format_to_marker f) then some f else rest
