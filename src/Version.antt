-- ===== src/Version.antt =====
-- version/version.go: what is known of the running program.
use cluster_api_ipam_provide.Common.{String, ◌<>◌}

-- The variables that the build fills in.
pub record Build : Type 0 where
  pub git_major : String
  pub git_minor : String
  pub git_version : String
  pub git_commit : String
  pub git_tree_state : String
  pub build_date : String

-- What Go's package runtime says of the toolchain and the platform.
pub record Toolchain : Type 0 where
  pub version : String
  pub compiler : String
  pub goos : String
  pub goarch : String

pub record Info : Type 0 where
  pub major : String
  pub minor : String
  pub git_version : String
  pub git_commit : String
  pub git_tree_state : String
  pub build_date : String
  pub go_version : String
  pub compiler : String
  pub platform : String

-- `Get`
abbrev pub get : Build → Toolchain → Info
get build toolchain = record {
  major = build.git_major;
  minor = build.git_minor;
  git_version = build.git_version;
  git_commit = build.git_commit;
  git_tree_state = build.git_tree_state;
  build_date = build.build_date;
  go_version = toolchain.version;
  compiler = toolchain.compiler;
  platform = toolchain.goos <> ("/" <> toolchain.goarch);
}

-- `Info.String`
abbrev pub string : Info → String
string info = info.git_version
