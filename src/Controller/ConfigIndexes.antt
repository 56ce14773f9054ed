-- ===== src/Controller/ConfigIndexes.antt =====
-- The index functions for ConfigMaps and Secrets in
-- internal/controller/kustomization_manager.go.
use kustomize_controller.Base.{
  String, ◌==◌, ◌<>◌, if◌then◌else◌, Option, none, some, List, [], ◌∷◌, ◌++◌,
}
use kustomize_controller.Api.Spec.{KubeConfigReference, PostBuild, SubstituteReference, Decryption}
use kustomize_controller.Api.Object.{Kustomization}

abbrev key_of : String → Option String → List String
key_of namespace none = []
key_of namespace (some name) = (namespace <> ("/" <> name)) ∷ []

abbrev config_map_of : Option KubeConfigReference → Option String
config_map_of none = none
config_map_of (some kc) = kc.config_map_ref

abbrev secret_of : Option KubeConfigReference → Option String
secret_of none = none
secret_of (some kc) = kc.secret_ref

abbrev decryption_secret : Option Decryption → Option String
decryption_secret none = none
decryption_secret (some dec) = dec.secret_ref

-- The loop over `pb.SubstituteFrom`, for the references of a kind
unfoldable pub keys_of_kind : String → String → List SubstituteReference → List String
keys_of_kind kind namespace [] = []
keys_of_kind kind namespace (ref ∷ refs) =
    let rest = keys_of_kind kind namespace refs in
    if ref.kind == kind then (namespace <> ("/" <> ref.name)) ∷ rest else rest

abbrev substituted : String → String → Option PostBuild → List String
substituted kind namespace none = []
substituted kind namespace (some pb) = keys_of_kind kind namespace pb.substitute_from

-- The function of the index `indexConfigMap`
unfoldable pub index_config_maps : Kustomization → List String
unfolding keys_of_kind
index_config_maps obj =
    key_of obj.namespace (config_map_of obj.spec.kube_config)
    ++ substituted "ConfigMap" obj.namespace obj.spec.post_build

-- The function of the index `indexSecret`
unfoldable pub index_secrets : Kustomization → List String
unfolding keys_of_kind
index_secrets obj =
    key_of obj.namespace (decryption_secret obj.spec.decryption)
    ++ key_of obj.namespace (secret_of obj.spec.kube_config)
    ++ substituted "Secret" obj.namespace obj.spec.post_build
