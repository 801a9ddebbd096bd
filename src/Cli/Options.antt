-- ===== src/Cli/Options.antt =====
-- pkg/cli/internal/options/opts.go: the options of every command, as the flags set them.
use bumblebee.Common.{String, Bool, List}
use bumblebee.Images.{RegistryOptions}

pub record AuthOptions : Type 0 where
  pub credentials_files : List String
  pub username : String
  pub password : String
  pub insecure : Bool
  pub plain_http : Bool

pub record GeneralOptions : Type 0 where
  pub verbose : Bool
  pub oci_storage_dir : String
  pub config_dir : String
  pub auth_options : AuthOptions

abbrev pub to_registry_options : AuthOptions → RegistryOptions
to_registry_options opts = record {
  configs = opts.credentials_files;
  username = opts.username;
  password = opts.password;
  insecure = opts.insecure;
  plain_http = opts.plain_http;
}
