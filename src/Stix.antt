-- ===== src/Stix.antt =====
-- analysis/gen_stix_bundle.py: the STIX bundle of the families. This module has the tables; Ids the
-- identifiers, Objects the objects, Attackers, Payloads, Servers and Notes the sections of
-- `build_bundle`, and Bundle the whole.
pub mod Ids
pub mod Objects
pub mod Attackers
pub mod Payloads
pub mod Servers
pub mod Notes
pub mod Bundle
use Prim.Native.String.{String}
use ssh_honeypot.Base.{ℕ, List, [], ◌∷◌, map}
use ssh_honeypot.Base.Dict.{Dict}
use ssh_honeypot.Base.Text.{Str, lit}

abbrev row : String → String → String → Str × (Str × Str)
row fid technique name = (lit fid, (lit technique, lit name))

-- `ATTACK_MAP`
unfoldable pub attack_map : Dict Str (Str × Str)
attack_map =
    row "F1" "T1110.001" "Brute Force: Password Guessing"
    ∷ row "F2" "T1496" "Resource Hijacking"
    ∷ row "F3" "T1105" "Ingress Tool Transfer"
    ∷ row "F4" "T1543.002" "Create or Modify System Process: Systemd Service"
    ∷ row "F5" "T1059.004" "Command and Scripting Interpreter: Unix Shell"
    ∷ row "F6" "T1543.002" "Create or Modify System Process: Systemd Service"
    ∷ row "F7" "T1082" "System Information Discovery"
    ∷ row "F8" "T1082" "System Information Discovery"
    ∷ row "F9" "T1110.001" "Brute Force: Password Guessing"
    ∷ row "F10" "T1027" "Obfuscated Files or Information"
    ∷ row "F11" "T1136.001" "Create Account: Local Account"
    ∷ row "F12" "T1105" "Ingress Tool Transfer"
    ∷ row "F13" "T1021.004" "Remote Services: SSH"
    ∷ row "F14" "T1082" "System Information Discovery"
    ∷ row "F15" "T1082" "System Information Discovery"
    ∷ []

abbrev name_row : String → String → Str × Str
name_row fid name = (lit fid, lit name)

-- `FAMILY_NAMES`
unfoldable pub family_names : Dict Str Str
family_names =
    name_row "F1" "Credential Stuffing - Auth Only"
    ∷ name_row "F2" "Diicot GPU Miner"
    ∷ name_row "F3" "SCP Dropper"
    ∷ name_row "F4" "w.sh/astats Persistence - Early Wave"
    ∷ name_row "F5" "C2 Dropper - Fileless wget|sh"
    ∷ name_row "F6" "w.sh/astats Persistence - Large Wave"
    ∷ name_row "F7" "VPS Infrastructure Scout"
    ∷ name_row "F8" "SSHCHK C2 Liveness Check"
    ∷ name_row "F9" "Auth-Only Scanner Cluster"
    ∷ name_row "F10" "ELF Echo Injector"
    ∷ name_row "F11" "Meow Dropper"
    ∷ name_row "F12" "wowo Dropper"
    ∷ name_row "F13" "gJw27HGL SSH Worm"
    ∷ name_row "F14" "Architecture Capability Prober"
    ∷ name_row "F15" "SSH Liveness Probe"
    ∷ []

abbrev pub worm_sha256 : Str
worm_sha256 = lit "6d1fe6ab3cd04ca5d1ab790339ee2b6577553bc042af3b7587ece0c195267c9b"

pub record Binary : Type 0 where
  pub name : Str
  pub sha256 : Str
  pub desc : Str

unfoldable pub f10_binaries : List Binary
f10_binaries =
    record {
      name = lit "amd64";
      sha256 = lit "0ff23a77abba239a50412c720b2e423fcb3fb00e2362189cafa116eeb9bdce27";
      desc = lit "5MB 64-bit Go binary, stripped. First stage of F10 ELF echo injector.";
    }
    ∷ record {
      name = lit "kal64";
      sha256 = lit "b02337d82c44ed46e5b186bd54cde717be39da81a29fb332090d10a5c444ccb6";
      desc = lit "3MB 64-bit Go binary, stripped. Second stage of F10 ELF echo injector.";
    }
    ∷ record {
      name = lit "kswpad";
      sha256 = lit "6fddaa099096c0caee183e4bb95e9fe79003e6ae6dc41d6b1aa3b4aec221bd38";
      desc = lit "1.2MB ELF 32-bit x86. Third stage of F10 ELF echo injector.";
    }
    ∷ record {
      name = lit "linux";
      sha256 = lit "25c34c028f0c119da251ca5d17020df79a030c7c3b86c5a8df699065016a21a2";
      desc =
          lit "1.3MB ELF 32-bit x86, UPX packed. Fourth and final stage of F10 ELF echo injector.";
    }
    ∷ []

pub record Server : Type 0 where
  pub ip : Str
  pub port : ℕ
  pub paths : Str

unfoldable pub f10_c2_ips : List Server
f10_c2_ips =
    record {
      ip = lit "195.177.94.72";
      port = 564;
      paths = lit "/b/amd64, /b/kal64, /b/kswpad, /b/linux, /s/amd64, /s/kal64";
    }
    ∷ record {
      ip = lit "45.88.91.135";
      port = 35146;
      paths = lit "/b/amd64, /b/kal64, /b/kswpad, /b/linux";
    }
    ∷ []

abbrev pub f5_c2_ip : Str
f5_c2_ip = lit "14.46.136.77"

abbrev pub f5_c2_url : Str
f5_c2_url = lit "https://14.46.136.77/sh"

unfoldable pub f11_c2_ips : List Str
f11_c2_ips = map lit ("34.11.111.237" ∷ "35.237.91.38" ∷ "34.181.210.37" ∷ [])

pub record Probe : Type 0 where
  pub name : Str
  pub sha256 : Str
  pub size : ℕ

-- The fields `arch` and `desc` of a probe are never read.
unfoldable pub f14_probes : List Probe
f14_probes =
    record {
      name = lit "tz7n3j1l8apie4kgjj19caibdc";
      sha256 = lit "e374a7ad447d2cf791ecae122894a51ba723901ea132e7fa16cd47c44e4a1769";
      size = 512;
    }
    ∷ record {
      name = lit "tz7n3j1l8apie4kgjj19caibdc";
      sha256 = lit "f74a8b06db4f8f48f4a19ea5c01bade2a0dfb9290c4ed04a3f1a3eaa298a843d";
      size = 348;
    }
    ∷ []

-- `recon_only` and `recon_kill_execute` of an address.
unfoldable pub f2_stage_by_ip : Dict Str (ℕ × ℕ)
f2_stage_by_ip = (lit "35.200.201.144", (9, 28)) ∷ (lit "103.146.202.84", (11, 0)) ∷ []
