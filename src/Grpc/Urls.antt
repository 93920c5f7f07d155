-- ===== src/Grpc/Urls.antt =====
-- GetCloneURLs of pkg/grpc/server.go.
use soft_serve.Base.{Bool, ◌&&◌, not, [], ◌++◌, Text, str, text_eq, trim_suffix, if◌then◌else◌}
use soft_serve.Grpc.{Rpc, ◌>>◌, pure, required}

-- the parts of the configuration that the method reads
pub record Config : Type 0 where
  pub ssh_public_url : Text
  pub ssh_enabled : Bool
  pub ssh_listen_addr : Text
  pub http_public_url : Text
  pub http_enabled : Bool
  pub http_listen_addr : Text
  pub tls_cert_path : Text
  pub tls_key_path : Text
  pub git_enabled : Bool
  pub git_listen_addr : Text

-- CloneURLsResponse
pub record CloneUrls : Type 0 where
  pub ssh_url : Text
  pub http_url : Text
  pub git_url : Text

-- a text that is not empty
abbrev is_set : Text → Bool
is_set s = not (text_eq s [])

unfoldable pub ssh_url : Config → Text → Text
unfolding trim_suffix text_eq
ssh_url cfg name =
    if is_set cfg.ssh_public_url
    then trim_suffix cfg.ssh_public_url (str "/") ++ (str "/" ++ name)
    else if cfg.ssh_enabled
    then str "ssh://" ++ (cfg.ssh_listen_addr ++ (str "/" ++ name))
    else []

unfoldable pub http_scheme : Config → Text
unfolding text_eq
http_scheme cfg =
    if is_set cfg.tls_cert_path && is_set cfg.tls_key_path then str "https" else str "http"

unfoldable pub http_url : Config → Text → Text
unfolding trim_suffix text_eq http_scheme
http_url cfg name =
    if is_set cfg.http_public_url
    then trim_suffix cfg.http_public_url (str "/") ++ (str "/" ++ (name ++ str ".git"))
    else if cfg.http_enabled
    then http_scheme cfg
      ++ (str "://" ++ (cfg.http_listen_addr ++ (str "/" ++ (name ++ str ".git"))))
    else []

unfoldable pub git_url : Config → Text → Text
git_url cfg name =
    if cfg.git_enabled then str "git://" ++ (cfg.git_listen_addr ++ (str "/" ++ name)) else []

-- GetCloneURLs
unfoldable pub get_clone_urls : {C : Type 0} → Config → Text → Rpc C CloneUrls
unfolding required ssh_url http_url git_url
get_clone_urls cfg name = do
  required name
  pure (record {
    ssh_url = ssh_url cfg name;
    http_url = http_url cfg name;
    git_url = git_url cfg name;
  })
