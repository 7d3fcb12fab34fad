-- ===== src/Stix/Payloads.antt =====
-- Sections 6 and 7 of `build_bundle` of analysis/gen_stix_bundle.py: the worm of F13 and the binaries
-- of F10.
use ssh_honeypot.Base.{Option, none, some, List, [], ◌∷◌, ◌++◌, nat_eq, list_eq}
use ssh_honeypot.Base.Dict.{Dict, get}
use ssh_honeypot.Base.Results.{Result, ok, ◌>>=◌, look}
use ssh_honeypot.Base.Text.{Str, lit}
use ssh_honeypot.Stix.{worm_sha256, Binary}
use ssh_honeypot.Stix.Attackers.{id_of}
use ssh_honeypot.Stix.Objects.{
  AttackPattern, Indicator, File, Malware, file, malware, relationship, Step, append, raise,
  Families, Library,
}

unfoldable pub worm_file : File
worm_file = record {
  name = lit "gJw27HGL";
  sha256 = worm_sha256;
  size = some 4745;
  mime_type = some (lit "text/plain");
}

unfoldable pub worm_description : Str
worm_description =
    lit "Bash SSH worm, 4745 bytes (sha256: 6d1fe6ab...). "
    ++ lit "Spreads via sshpass with Raspberry Pi default passwords "
    ++ lit "('raspberry', 'raspberry993311'). "
    ++ lit "Kill chain: (1) kills competitors (minerd, ktx-*, kaiten, zmap, bins.sh, perl); "
    ++ lit "(2) blocks competitor C2 via /etc/hosts (bins.deutschland-zahlung.eu -> 127.0.0.1); "
    ++ lit "(3) injects RSA pubkey into /root/.ssh/authorized_keys (permanent backdoor); "
    ++ lit "(4) changes pi user password to hardcoded SHA-512 hash; "
    ++ lit "(5) spawns IRC bot on Undernet (ix1/ix2.undernet.org), joins #biret -- "
    ++ lit "commands arrive as base64 PRIVMSG with RSA signature, "
    ++ lit "botnet cannot be hijacked by joining the channel (operator must hold the private key); "
    ++ lit "(6) self-propagates: zmap scans 100k IPs on port 22, SCPs itself to victims. "
    ++ lit "6 quarantine captures Jun 2, 6, 8, 14, 17, 24 -- same hash every time. "
    ++ lit "NOT a Go worm -- pure bash."

unfoldable pub binary_file : Binary → File
binary_file b = record { name = b.name; sha256 = b.sha256; size = none; mime_type = none }

module _ (lib : Library) where
  unfoldable pub worm_malware : Malware
  worm_malware = record {
    id = id_of lib (lit "malware") (lit "gJw27HGL" ∷ worm_sha256 ∷ []);
    name = lit "gJw27HGL SSH Worm";
    malware_types = lit "worm" ∷ lit "backdoor" ∷ [];
    description = worm_description;
    sample_refs = lib.file_id worm_file ∷ [];
  }

  -- What `if ip in ind_by_ip` leaves of the loop's body.
  unfoldable pub worm_upload : Str → Option Indicator → List Step
  worm_upload ip none = []
  worm_upload ip (some ind) =
      append (
        relationship (record {
          id = id_of lib (lit "relationship") (lit "ind-to-malware" ∷ ip ∷ []);
          relationship_type = lit "indicates";
          source_ref = ind.id;
          target_ref = worm_malware.id;
          description =
              some (lit "IP " ++ ip ++ lit " uploaded gJw27HGL worm payload via SCP (F13).");
        }))
      ∷ raise "relationship" 1
      ∷ []

  unfoldable pub worm_uploads : Dict Str Indicator → List Str → List Step
  worm_uploads inds [] = []
  worm_uploads inds (ip ∷ ips) = worm_upload ip (get ip inds) ++ worm_uploads inds ips

  unfoldable pub worm_entries :
      Families → Dict Str AttackPattern → Dict Str Indicator → Result (List Step)
  worm_entries families aps inds = look (lit "F13") aps >>= λ ap.
      look (lit "F13") families >>= λ fam. ok (
        append (file worm_file)
        ∷ raise "file" 1
        ∷ append (malware worm_malware)
        ∷ raise "malware" 1
        ∷ append (
            relationship (record {
              id =
                  id_of lib (lit "relationship")
                    (lit "malware-uses-ap" ∷ lit "gJw27HGL" ∷ lit "F13" ∷ []);
              relationship_type = lit "uses";
              source_ref = worm_malware.id;
              target_ref = ap.id;
              description = none;
            }))
        ∷ raise "relationship" 1
        ∷ worm_uploads inds fam.ips)

  unfoldable pub binary_malware : Binary → Malware
  binary_malware b = record {
    id = id_of lib (lit "malware") (lit "F10" ∷ b.name ∷ []);
    name = lit "F10 payload: " ++ b.name;
    malware_types = lit "dropper" ∷ [];
    description =
        b.desc
        ++ lit " "
        ++ lit "Delivered via hex echo injection (43k+ echo -e -n commands per binary) "
        ++ lit "when C2 downloads failed (195.177.94.72:564 and 45.88.91.135:35146 unreachable). "
        ++ lit "SHA-256 verified across two independent session extractions.";
    sample_refs = lib.file_id (binary_file b) ∷ [];
  }

  -- The body of the loop over F10_BINARIES.
  unfoldable pub binary_entries : Dict Str AttackPattern → Binary → Result (List Step)
  binary_entries aps b = look (lit "F10") aps >>= λ ap. ok (
      append (file (binary_file b))
      ∷ raise "file" 1
      ∷ append (malware (binary_malware b))
      ∷ raise "malware" 1
      ∷ append (
          relationship (record {
            id = id_of lib (lit "relationship") (lit "f10-mal-uses-ap" ∷ b.name ∷ []);
            relationship_type = lit "uses";
            source_ref = (binary_malware b).id;
            target_ref = ap.id;
            description = none;
          }))
      ∷ raise "relationship" 1
      ∷ [])
