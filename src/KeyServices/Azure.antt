-- ===== src/KeyServices/Azure.antt =====
-- internal/sops/azkv/config.go: the credential that an Azure authentication file asks for.
use kustomize_controller.Base.{String, ◌<>◌, ◌==◌, ◌&&◌, not, Bool, if◌then◌else◌}
use kustomize_controller.Errors.{Result, ok, err, text_error}

-- `AADConfig`, with the fields of `AZConfig`
pub record AadConfig : Type 0 where
  pub app_id : String
  pub tenant : String
  pub password : String
  pub tenant_id : String
  pub client_id : String
  pub client_secret : String
  pub client_certificate : String
  pub client_certificate_password : String
  pub client_certificate_send_chain : Bool
  pub authority_host : String

-- `cloud.Configuration`: the authority host, or the Azure public cloud
pub data Cloud : Type 0 where
  authority : String → Cloud
  azure_public : Cloud

-- The calls of azidentity: a client secret (tenant, client, secret), a certificate (tenant, client,
-- certificate, password, whether the chain is sent), and a managed identity (client).
pub data AzureCredential : Type 0 where
  client_secret_credential : String → String → String → Cloud → AzureCredential
  client_certificate_credential : String → String → String → String → Bool → Cloud → AzureCredential
  managed_identity_credential : String → AzureCredential

-- `GetCloudConfig()`
unfoldable pub get_cloud_config : AadConfig → Cloud
get_cloud_config s =
    if not (s.authority_host == "") then authority s.authority_host else azure_public

abbrev with_tenant : AadConfig → Result AzureCredential
with_tenant c =
    if not (c.client_secret == "")
    then ok (client_secret_credential c.tenant_id c.client_id c.client_secret (get_cloud_config c))
    else if not (c.client_certificate == "")
    then ok (
        client_certificate_credential c.tenant_id c.client_id c.client_certificate
          c.client_certificate_password c.client_certificate_send_chain (get_cloud_config c))
    else err (
        text_error (
          "invalid data: requires 'clientSecret' or 'clientCertificate' when both 'tenantId' and "
          <> "'clientId' are set"))

abbrev without_tenant : AadConfig → Result AzureCredential
without_tenant c =
    if not (c.tenant == "") && not (c.app_id == "") && not (c.password == "")
    then ok (client_secret_credential c.tenant c.app_id c.password (get_cloud_config c))
    else if not (c.client_id == "")
    then ok (managed_identity_credential c.client_id)
    else err (
        text_error (
          "invalid data: requires a 'clientId' field, a combination of 'tenantId', 'clientId' and "
          <> "'clientSecret', or 'tenantId', 'clientId' and 'clientCertificate'"))

-- `TokenCredentialFromAADConfig(c)`, up to the call that makes the credential
unfoldable pub token_credential_from_aad_config : AadConfig → Result AzureCredential
unfolding get_cloud_config
token_credential_from_aad_config c =
    if not (c.tenant_id == "") && not (c.client_id == "") then with_tenant c else without_tenant c
