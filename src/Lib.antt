-- ===== src/Lib.antt =====
-- kustomize-controller: the reconciler of Kustomizations.
--
-- The controller takes the artifact of a source, builds a Kustomize overlay from it, decrypts and
-- substitutes, applies the objects on the server side, deletes the objects that are no longer
-- there, checks the health of what it applied, and keeps in the status of the Kustomization what it
-- has done. The development models these parts:
--
--   * Api (api/v1): the spec, the status, the constants, and the getters that put defaults in place
--     of fields left empty. A Go pointer is an `Option`, a duration is its nanoseconds, and
--     `GetTimeout` subtracts in 64 bits (Base.Int.sub64). V1beta1 and V1beta2 have the types and
--     the getters of the earlier versions (api/v1beta1, api/v1beta2), V1beta1.Snapshots the
--     snapshots of the first, and Versions compares them.
--   * Inventory (internal/inventory/inventory.go): Operations holds all its functions. Merging is
--     about `Merge`, Stale and Unreadable about `Diff`, Listing about `AddChangeSet` and `List`, Parsing about the
--     identifiers that are read back, Canonical about those that it was made of.
--   * Controller (internal/controller/kustomization_controller.go), a file for each group of
--     methods: Config (the fields of the reconciler), Status (`event`, `patch`, `finalizeStatus`),
--     Source (`getSource`, `getOriginRevision`), Dependencies (`checkDependencies`,
--     `evalReadyExpr`), Clients (impersonation), Building (`build`, `maskSecretValues`), Applying
--     (`apply`), Health (`checkHealth`), Garbage (`prune`, `pruneSurvivors`, `deleteObjects`),
--     Finalizing (`finalize`), Reconciling (`reconcile`, in the order of its stages) and Dispatch
--     (`Reconcile`, with what it defers). Applying also has `HasChanged` of
--     internal/controller/utils.go, TempDirs has internal/controller/tmpdir.go, ConfigIndexes the
--     index functions for ConfigMaps and Secrets of internal/controller/kustomization_manager.go,
--     and Manager its `SetupWithManager`.
--   * Controller/Triggers (internal/controller/source_predicate.go and kustomization_indexers.go):
--     what brings a Kustomization to the queue; Wakeups is about it.
--   * The proofs about the controller: Access (of sources), Readiness (of dependencies), Retracking
--     (garbage collection), Encryption and Protection (of Secrets), Waiting (health checks),
--     Deletion (finalization), Settling (the final status), Outcomes and Failures (of a
--     reconciliation), Pausing (suspended objects), Requeuing (what leads to another run),
--     Manager.Indexing and Manager.Watching (the set-up), with the tests on effects in Traces.
--     Framing says which parts of the state each stage leaves as they are, and Branching takes a
--     run apart into its branches. Tracking follows the inventory (Accounts says what is accounted
--     for): through a run (Changes), through sequences of runs (Requests), and as sets of
--     identifiers (Sets).
--   * Command (main.go, internal/features/features.go): the reconciler and the options of its
--     set-up, as the flags and the gates (Features) make them; Wiring is about both.
--   * Decryption (internal/decryptor/decryptor.go and options.go): Credentials has the `Decryptor`
--     and the key service that it makes, Importing `ImportKeys`, Authentication `SetAuthOptions`,
--     Files the functions on paths, Walking `recurseKustomizationFiles`, Sources `DecryptSources`,
--     Sops `SopsDecryptWithFormat` (with `sopsEncryptWithFormat` in Sops.Encrypting and what one
--     makes of the other in Sops.RoundTrip), Tree the values in envelopes, Redaction `safeDecrypt`,
--     Resources `DecryptResource`, Formats the markers, and Secrets the tests for encrypted
--     Secrets. The other modules below these hold their proofs.
--   * Decryption/Vault (internal/decryptor/transit_engine.go): the login to Vault with a
--     ServiceAccount token, its cache and its allowlist.
--   * KeyServices (internal/sops): Serving has the requests of keyservice/server.go, the root its
--     options, Region awskms/region.go and Azure azkv/config.go.
--
-- How the state is modelled. The methods change the object in place and call the cluster, so a
-- method is a function on a state (Run.State): the object, the world outside, and the effects so
-- far, the latest first. It gives a value or an error (Errors), and what it changed before an error
-- stays changed. An error keeps its text, how it is wrapped, and the class by which the code knows
-- it. A deferred function is applied to what the body leaves.
--
-- The decryptor, the Vault client and the key service run on a state of their own (Io), which holds
-- the world and what the code caches. A walk over Kustomization files has the set of visited paths
-- in its state. A key service is made of the decryptor's credentials, and asks the cached login for
-- Vault tokens. A call of SOPS that panics gives a value that the recovering function turns into an
-- error.
--
-- What the code calls outside this repository is a parameter: the API server, server-side apply,
-- the artifact fetcher, CEL, the clock and the file system (Platform.Services), the conditions
-- (Platform.Conditions), the object identifiers and sets (Inventory.Packages), Kustomize
-- (Controller.Building.BuildServices, where the decryptor stands as an interface), SOPS
-- (Decryption.Sops.Sops, KeyServices.MasterKeys), the Vault client, and the packages for
-- credentials. What a theorem needs of them is a named record `IsLawful` or a hypothesis of the
-- theorem; Samples has concrete packages with proofs that they are lawful, a platform and objects,
-- and Examples applies the theorems to them.
--
-- Loops are structural recursion on the lists and trees that the code ranges over. Only the walk
-- over Kustomization files runs on fuel: it ends once the fuel exceeds the number of directories
-- that have not been visited (Decryption.Walking.Ending). A Go map is a list of its bindings or of
-- its keys.
--
-- Not modelled: logs and metrics; the contexts that cancel a health check, but for the error that
-- the wait then gives, and those of the decryptor; the decoding of credential files
-- (internal/sops/azkv and internal/sops/awskms); of main.go the parsing of flags, the options of
-- the manager and its cache, and the event recorder; of the earlier API versions the constants,
-- which repeat those of api/v1; and the generated deep copies, since a value of the model is never
-- changed in place.
pub mod Base
pub mod Api
pub mod Errors
pub mod Inventory
pub mod Platform
pub mod Run
pub mod Io
pub mod Decryption
pub mod KeyServices
pub mod Controller
pub mod Command
pub mod Samples
pub mod Examples
