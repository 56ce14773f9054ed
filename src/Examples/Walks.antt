-- ===== src/Examples/Walks.antt =====
-- The walk over Kustomization files and the decryption of sources at concrete files.
use kustomize_controller.Base.{
  String, ◌==◌, true, false, ◌≡◌, ◌≢◌, refl, some, [], ◌∷◌, lookup, put, In, inl, inr, arith,
  Bool-cases, Option-cases, eq_iff, ◌<◌,
}
use kustomize_controller.Errors.{ok, ok_inv}
use kustomize_controller.Base.Cutting.{has_prefix}
use kustomize_controller.Decryption.Files.{FileInfo}
use kustomize_controller.Decryption.Walking.{Outcome, Walk, recurse_kustomization_files}
use kustomize_controller.Decryption.Walking.Ending.{unvisited, recurse_kustomization_files_ends}
use kustomize_controller.Decryption.Sources.{
  Visitor, decrypt_kustomization_sources, decrypt_sources,
}
use kustomize_controller.Decryption.Sources.Confinement.{decrypt_sources_confined}
use kustomize_controller.Samples.Files.{
  Contents, clean, files, file_decryptor, encrypted, sops_decryption, lstat, place,
}

abbrev start : Visitor Contents
start = record { world = encrypted; decrypted = [] }

abbrev after : Visitor Contents
after = record {
  world = put encrypted "/r/app/secret.yaml" "password: hunter2";
  decrypted = "/r/app/secret.yaml" ∷ [];
}

-- Only "/r/app" is a directory.
one_directory :
    (path : String) (w : Contents) (info : FileInfo)
    → lstat path w ≡ ok info
    → info.is_dir ≡ true
    → In path ("/r/app" ∷ [])
one_directory path w info h dir = elim (Bool-cases (path == "/r/app")) [
  | inl same ↦ inl (ground (arith, eq_iff path "/r/app"))
  | inr other ↦ elim (Option-cases (lookup w path)) [
    | inl gone ↦ ground (arith, other, gone, h, dir)
    | inr (t, found) ↦ ground (arith, other, found, h, dir)
  ]
]

one_unvisited : unvisited ("/r/app" ∷ []) [] < 2
unfolding unvisited
one_unvisited = omega arith

recurse_kustomization_files_ends_example :
    (o : Outcome) × (st : Walk (Visitor Contents)) × (recurse_kustomization_files files
        (λ v. v.world)
        "/r"
        (decrypt_kustomization_sources file_decryptor "/r")
        2
        "app"
        ([], start)
      ≡ some (o, st))
recurse_kustomization_files_ends_example =
    recurse_kustomization_files_ends files (λ v. v.world) "/r"
      (decrypt_kustomization_sources file_decryptor "/r") ("/r/app" ∷ []) one_directory 2 "app" []
      start one_unvisited

decrypts :
    decrypt_sources file_decryptor 2 (some sops_decryption) "/r" "app" encrypted
    ≡ some (ok tt, after)
unfolding decrypt_sources has_prefix clean
decrypts = refl

other_file :
    (path text : String) (w : Contents)
    → "/etc/passwd" ≢ path
    → files.read_file "/etc/passwd" (files.write_file path text w).1
      ≡ files.read_file "/etc/passwd" w
other_file path text w differs = elim (Bool-cases (path == "/etc/passwd")) [
  | inl same ↦ ground (arith, eq_iff path "/etc/passwd", differs, same)
  | inr other ↦ rw other refl
]

elsewhere : (p : String) → (place p == "/etc/passwd") ≡ false
elsewhere p = elim (Bool-cases (p == "app")) [
  | inl a ↦ rw a refl
  | inr b ↦ elim (Bool-cases (p == "app/kustomization.yaml")) [
    | inl a ↦ rw (b, a) refl
    | inr c ↦ rw (b, c) refl
  ]
]

not_reached : (path : String) (w : Contents) → files.secure_join "/r" path w ≢ ok "/etc/passwd"
not_reached path w e = ground (arith, eq_iff (place path) "/etc/passwd", elsewhere path, ok_inv e)

decrypt_sources_confined_example :
    files.read_file "/etc/passwd" after.world ≡ files.read_file "/etc/passwd" encrypted
decrypt_sources_confined_example =
    decrypt_sources_confined file_decryptor "/r" "/etc/passwd" other_file (λ t f g w. refl)
      not_reached 2 (some sops_decryption) "app" encrypted (ok tt) after decrypts
