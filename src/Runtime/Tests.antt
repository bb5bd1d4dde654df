-- ===== src/Runtime/Tests.antt =====
-- A sample launch that is admitted, answers challenges and falls silent.
use certael_agent.Ipc.Header.{be32}
use certael_agent.Ipc.{shutdown, header_of, write_all, write_frame, flush}
use certael_agent.Protocol.Domains.{domain_bytes, verify_signed_bytes}
use certael_agent.Protocol.Verify.{
  verify_policy, decode_canonical, verify_launch_grant, verify_envelope,
}
use certael_agent.Protocol.KeyRing.{find, resolve, inactive}
use certael_agent.Protocol.Validate.{
  bad_file, validate_launch_grant, requirement_mode_of, grant_malformed, validate_build_manifest,
  set_contains, validate_policy, policy_malformed, manifest_malformed,
}
use certael_agent.Protocol.Fields.{
  version_byte, identifier, is_separator, version_identifier, plain_part, identifier_byte,
}
use certael_agent.Protocol.Launch.{
  misbound, bound_launch, verify_launch_bundle, component, bind_launch,
}
use certael_agent.Text.{
  is_ascii_hexdigit, bytes, utf8, to_ascii_lowercase, eq_ignore_ascii_case, is_ascii_alphanumeric,
  starts_with, is_ascii_alphabetic, lower, len,
}
use certael_agent.Text.Split.{split}
use certael_agent.Platform.{bad_entry, compare_files, bad_manifest, compare_file}
use certael_agent.Protocol.Samples.{toy_crypto_laws}
use certael_agent.Runtime.Samples.{
  sink, launched, arrival, asked, state, quiet_rounds, round_at, tools,
}
use certael_agent.Runtime.Linked.{IsLinked}
use certael_agent.Runtime.Reports.{report_frames}
use certael_agent.Prelude.Int.{sub_i64, add_i64, pos}
use certael_agent.Runtime.Rounds.{serve, protect}
use certael_agent.Runtime.Admitted.{IsAdmitted, await_admission-IsAdmitted}
use certael_agent.Runtime.{publish_runtime, send, Event, failed}
use certael_agent.Runtime.Silence.{quiet_round, Quiet, quiet_end, protect_fails}
use certael_agent.Runtime.Served.{serve-IsLinked}
use certael_agent.Runtime.Admission.{
  arrived, refuse_launch, reject, first_frame, admit, timed_out, await_admission,
}
use certael_agent.Protocol.Messages.{BoundAgentLaunch}
use certael_agent.Prelude.{
  any, all, same, [], ◌⊎◌, ◌∷◌, ◌≡◌, zero, suc, arith, err, replicate, some, refl, ok, List, String,
  ℕ,
}
use certael_agent.Runtime.Deadlines.{start, Loop, Round}

admitted : (await_admission tools state arrival sink).result ≡ ok launched
unfolding await_admission admit reject refuse_launch first_frame send publish_runtime write_frame
    header_of be32 write_all flush add_i64 sub_i64 verify_launch_bundle bind_launch bound_launch
    misbound component verify_policy verify_launch_grant
    certael_agent.Protocol.Verify.verify_build_manifest decode_canonical validate_policy
    policy_malformed validate_launch_grant grant_malformed validate_build_manifest
    manifest_malformed bad_file set_contains to_ascii_lowercase lower
    certael_agent.Protocol.Fields.safe_relative_path plain_part is_separator split starts_with
    verify_envelope verify_signed_bytes resolve find inactive domain_bytes identifier
    version_identifier identifier_byte version_byte requirement_mode_of all any same len bytes utf8
    is_ascii_alphanumeric is_ascii_alphabetic certael_agent.Platform.verify_build_manifest
    bad_manifest bad_entry compare_files compare_file certael_agent.Platform.safe_relative_path
    is_ascii_hexdigit eq_ignore_ascii_case
admitted = refl

await_admission-IsAdmitted_example : IsAdmitted tools state arrival launched
await_admission-IsAdmitted_example =
    await_admission-IsAdmitted tools state arrival sink launched admitted

abbrev challenged : List Round
challenged = round_at 1003 asked ∷ round_at 1005 timed_out ∷ round_at 1009 asked ∷ []

abbrev served : List Event
served = (serve tools state arrival (some (pos 1001)) (some (pos 1001)) challenged sink).events

serve-IsLinked_example :
    (report_frames served ≡ [])
    ⊎ ((b : BoundAgentLaunch) × IsAdmitted tools state arrival b
        × IsLinked tools state b 0 (replicate 32 0) served)
serve-IsLinked_example =
    serve-IsLinked tools toy_crypto_laws state arrival (some (pos 1001)) (some (pos 1001))
      challenged sink

quiet_rounds-Quiet : (n k : ℕ) → Quiet n (quiet_rounds n k)
quiet_rounds-Quiet n zero = quiet_end
quiet_rounds-Quiet n (suc k) =
    quiet_round refl refl refl (omega arith) (omega arith) (quiet_rounds-Quiet (suc n) k)

protect_fails_example :
    (message : String) × ((protect tools state launched
        (some (pos 1001))
        (some (pos 1001))
        (quiet_rounds 1001 26)
        sink).result
      ≡ err (failed message))
protect_fails_example =
    protect_fails tools state launched 1001 1001 (quiet_rounds 1001 26) sink
      (quiet_rounds-Quiet 1001 26) (omega arith) (omega arith) (omega arith)

abbrev first_loop : Loop
first_loop = start launched (pos 1001) (pos 1001)

abbrev stopped_rounds : List Round
stopped_rounds =
    round_at 1003 timed_out
    ∷ round_at 1005 (arrived (record { message_type = shutdown; payload = [] }))
    ∷ []
