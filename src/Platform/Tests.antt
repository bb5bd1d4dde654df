-- ===== src/Platform/Tests.antt =====
-- A build that is intact.
use certael_agent.Platform.Samples.{the_build, game_root, toy_hex}
use certael_agent.Protocol.Samples.{toy_crypto}
use certael_agent.Prelude.{[], ◌≡◌, ok, any, same, refl, all}
use certael_agent.Text.{
  bytes, eq_ignore_ascii_case, starts_with, len, to_ascii_lowercase, is_ascii_hexdigit, utf8, lower,
}
use certael_agent.Platform.{
  verify_build_manifest, bad_manifest, compare_file, safe_relative_path, bad_entry, compare_files,
}
use certael_agent.Text.Split.{split}

the_build_intact : verify_build_manifest toy_crypto toy_hex game_root the_build ≡ ok []
unfolding verify_build_manifest bad_manifest bad_entry compare_files compare_file safe_relative_path
    is_ascii_hexdigit eq_ignore_ascii_case to_ascii_lowercase lower split starts_with len bytes utf8
    any all same
the_build_intact = refl
