-- ===== src/Stix/Notes.antt =====
-- Sections 5, 11 and 12 of `build_bundle` of analysis/gen_stix_bundle.py: the notes, and the probes of
-- F14.
use Prim.Native.String.{String}
use ssh_honeypot.Base.{ℕ, Option, none, some, List, [], ◌∷◌, ◌++◌, map, nat_eq, list_eq}
use ssh_honeypot.Base.Dict.{Dict, get, count_of}
use ssh_honeypot.Base.Results.{Result, ok, ◌>>=◌, look}
use ssh_honeypot.Base.Text.{Str, lit, show}
use ssh_honeypot.Stix.{Probe, f14_probes}
use ssh_honeypot.Stix.Objects.{
  AttackPattern, Indicator, File, note, file, Step, append, raise, concat, Families, Library,
}

-- `f2_sb.get(stage, 0)`, in a text.
unfoldable pub stage_count : String → Dict Str ℕ → Str
stage_count stage sb = show (count_of (lit stage) sb)

unfoldable pub f2_content : Dict Str ℕ → Str
f2_content sb =
    lit "Stage breakdown verified by replay.py spot-check (2026-06-28).\n"
    ++ lit "\n"
    ++ lit "35.200.201.144: recon_only=9, recon_kill_execute=28\n"
    ++ lit "  9 sessions stopped at nvidia-smi Product Name check (GPU check threshold).\n"
    ++ lit "  28 sessions ran full kill chain:\n"
    ++ lit "    crontab -r ; chattr -iae ~/.ssh/authorized_keys ; pkill competing miners ;\n"
    ++ lit "    chmod 777 <random8chars> ; ./<random8chars> &>/dev/null & disown ; history -c\n"
    ++ lit "  Binary name randomized per session (kvjeboYe, LvIaTelV, HbmeBFwx, ...).\n"
    ++ lit "\n"
    ++ lit "103.146.202.84: recon_only=11, recon_kill_execute=0\n"
    ++ lit "  11 sessions stopped at recon, never reached deploy stage.\n"
    ++ lit "\n"
    ++ lit "Family totals: recon_only="
    ++ stage_count "recon_only" sb
    ++ lit ", "
    ++ lit "recon_kill="
    ++ stage_count "recon_kill" sb
    ++ lit ", "
    ++ lit "recon_kill_execute="
    ++ stage_count "recon_kill_execute" sb
    ++ lit "\n"
    ++ lit "\n"
    ++ lit "Additional techniques in recon_kill_execute path:\n"
    ++ lit "  T1562.001  chattr -iae on authorized_keys (immutable even to root)\n"
    ++ lit "  T1070.003  crontab -r (wipes all scheduled jobs including other malware)\n"
    ++ lit "  T1496      Monero miner deployed and disowned"

-- `ind_by_ip[e["ip"]].id`, where there is one.
unfoldable pub indicator_ref : Option Indicator → List Str
indicator_ref none = []
indicator_ref (some ind) = ind.id ∷ []

unfoldable pub indicator_refs : Dict Str Indicator → List Str → List Str
indicator_refs inds [] = []
indicator_refs inds (ip ∷ ips) = indicator_ref (get ip inds) ++ indicator_refs inds ips

unfoldable pub f2_entries :
    Families → Dict Str AttackPattern → Dict Str Indicator → Result (List Step)
f2_entries families aps inds = look (lit "F2") families >>= λ fam. look (lit "F2") aps >>= λ ap.
    ok (
      append (
        note (record {
          abstract = lit "F2 Diicot GPU Miner -- per-IP kill chain stage breakdown";
          content = f2_content fam.stage_breakdown;
          object_refs = ap.id ∷ indicator_refs inds fam.ips;
        }))
      ∷ raise "note" 1
      ∷ [])

unfoldable pub probe_file : Probe → File
probe_file p = record { name = p.name; sha256 = p.sha256; size = some p.size; mime_type = none }

unfoldable pub f14_content : Str
f14_content =
    lit "Two minimal ELF test binaries quarantine-captured from F14 session\n"
    ++ lit "(185.129.62.63, 2026-06-12 12:54 Rabat, client SSH-2.0-OpenSSH_9.9).\n"
    ++ lit "\n"
    ++ lit "e374a7ad...  512B  ELF64 x86-64  'Hello, world!' via syscall instruction\n"
    ++ lit "f74a8b06...  348B  ELF32 x86     'Hello, world!' via int 0x80\n"
    ++ lit "\n"
    ++ lit "Both are handcrafted assembly: write(1, 'Hello, world!\\n', 14) then exit(0).\n"
    ++ lit "No libc, no imports, 2 syscalls each. Uploaded to /bin/, executed, deleted.\n"
    ++ lit "Same random filename reused for both (first deleted before second upload).\n"
    ++ lit "top -bn1 was run first -- checking for competing malware or timing the load.\n"
    ++ lit "Real payload was never sent -- honeypot response likely failed the check.\n"
    ++ lit "45 minutes earlier, a VPS scout (F7) ran from 85.215.175.242 (SSH-2.0-Go).\n"
    ++ lit "Possible two-stage pipeline, but both IPs are dark since Jun 12."

unfoldable pub f14_entries : Library → Dict Str AttackPattern → Result (List Step)
f14_entries lib aps = look (lit "F14") aps >>= λ ap. ok (
    concat (map (λ p. append (file (probe_file p)) ∷ raise "file" 1 ∷ []) f14_probes)
    ++ (append (
          note (record {
            abstract = lit "F14 Architecture Capability Prober -- test ELF payloads";
            content = f14_content;
            object_refs = ap.id ∷ map (λ p. lib.file_id (probe_file p)) f14_probes;
          }))
        ∷ raise "note" 1
        ∷ []))

unfoldable pub loop_content : Str
loop_content =
    lit "12 passwords confirmed in both:\n"
    ++ lit "  (a) chpasswd targets logged in F4/F6/F11 sessions\n"
    ++ lit "  (b) subsequent login attempts from unrelated IPs, days to weeks later\n"
    ++ lit "\n"
    ++ lit "Strongest example: N41+mk##3RKWkK-  -- 11 login hits from unrelated IPs.\n"
    ++ lit "A machine-generated strong password has no business in any wordlist unless\n"
    ++ lit "it was harvested from a victim machine that ran chpasswd.\n"
    ++ lit "\n"
    ++ lit "8 more candidate passwords in chpasswd stream have not yet looped back.\n"
    ++ lit "\n"
    ++ lit "Mechanism: attacker A runs chpasswd on victim X. Credential is exfiltrated\n"
    ++ lit "(by a separate harvesting step not directly observed). Attacker B adds it\n"
    ++ lit "to their spray wordlist. Honeypot logs the attempt weeks later.\n"
    ++ lit "The honeypot was never actually compromised -- chpasswd is a noop in\n"
    ++ lit "the fake shell -- but the command and target password were logged."

unfoldable pub loop_entries : Dict Str AttackPattern → Result (List Step)
loop_entries aps = look (lit "F4") aps >>= λ f4. look (lit "F6") aps >>= λ f6.
    look (lit "F11") aps >>= λ f11. look (lit "F1") aps >>= λ f1. look (lit "F9") aps >>= λ f9. ok (
      append (
        note (record {
          abstract = lit "Credential feedback loop -- chpasswd passwords recycled into wordlists";
          content = loop_content;
          object_refs = f4.id ∷ f6.id ∷ f11.id ∷ f1.id ∷ f9.id ∷ [];
        }))
      ∷ raise "note" 1
      ∷ [])
