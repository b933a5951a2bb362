-- ===== src/Basic/Startup/Settings.antt =====
-- examples/basic/main/main.c, `app_main`: the config from the build, the interfaces and stdin.
use esp32s3_ota_api.Prelude.{
  [], ℕ, ◌≡◌, refl, inl, inr, Bool, true, false, Option, none, some, arith, if◌then◌else◌,
  Bool-cases, Option-cases,
}
use esp32s3_ota_api.Prelude.CString.{CString, codes, is_zero, strcmp}
use esp32s3_ota_api.Err.{is_ok}
use esp32s3_ota_api.Config.{Kconfig, Config, config_default}
use esp32s3_ota_api.System.{Platform}
use esp32s3_ota_api.Task.{Rtos}
use esp32s3_ota_api.Startup.{bind_netif, stdin_url, Idf, pure}
use esp32s3_ota_api.Startup.Owns.{Owns, Owns-from, Owns-required, Owns-pure}
use esp32s3_ota_api.Basic.{url_from_stdin}
use esp32s3_ota_api.Basic.Startup.{
  Options, Outside, Own, configure, find_netif, bind, take_url, read_url, choose_url,
}

module _ (P : Platform) (R : Rtos P) (I : Idf (P.World)) (out : Outside (P.World)) (K : Kconfig)
    (options : Options) where
  open P use {World}

  abbrev pub Configured : Option CString → Option ℕ → Config World
  Configured url netif = record config_default {
    url = url;
    cert_pem = options.cert_pem;
    skip_common_name_check = options.skip_common_name_check;
    bind_netif = netif;
  }

  -- A line, or nothing if the input is empty.
  abbrev pub IsRead : Option CString → CString → Type 0
  IsRead none line = line ≡ []
  IsRead (some read) line = line ≡ read

  -- The URL of the build, or a line of stdin if the build says "FROM_STDIN".
  abbrev pub IsGiven : Bool → Option CString → Type 0
  IsGiven false url = url ≡ some options.upgrade_url
  IsGiven true url =
      (is_zero (strcmp options.upgrade_url (codes "FROM_STDIN")) ≡ true)
      × (w : World) × (line : CString) × IsRead (url_from_stdin (out.stdin w).0) line
      × (url ≡ some line)

  -- No interface, or the one that has the name of the build.
  abbrev pub IsFound : Option CString → Option ℕ → Type 0
  IsFound none netif = netif ≡ none
  IsFound (some name) netif =
      (w : World) × (a : ℕ) × (out.netif_from_desc name w ≡ some a) × (netif ≡ some a)

  module _ (heap : ℕ → Option (Config World)) where
    abbrev pub Has : Option CString → Option ℕ → Own P R I out K options → Type 0
    Has url netif own = (own.ota_config ≡ Configured url netif) × (own.heap ≡ heap)

    abbrev pub Bound : Own P R I out K options → Type 0
    Bound own =
        (netif : Option ℕ) × IsFound options.bind_if netif
        × Has (some options.upgrade_url) netif own

    abbrev pub Chosen : Own P R I out K options → Type 0
    Chosen own =
        (netif : Option ℕ) × (url : Option CString) × IsFound options.bind_if netif
        × IsGiven options.url_from_stdin url
        × Has url netif own

    abbrev pub Fresh : Own P R I out K options → Type 0
    Fresh own = (own.ota_config ≡ config_default) × (own.heap ≡ heap)

    configured :
        (cert_pem : Option CString) (skip : Bool) (config : Config World)
        → config ≡ config_default
        → Path
            (Config World)
            (record config {
              url = some options.upgrade_url;
              cert_pem = elim cert_pem [ none ↦ config.cert_pem | some pem ↦ some pem ];
              skip_common_name_check = if skip then true else config.skip_common_name_check;
            })
            (record config_default {
              url = some options.upgrade_url;
              cert_pem = cert_pem;
              skip_common_name_check = skip;
            })
    configured none true config e = rw e refl
    configured none false config e = rw e refl
    configured (some pem) true config e = rw e refl
    configured (some pem) false config e = rw e refl

    pub Owns-configure :
        Owns Fresh (configure P R I out K options) (λ _. Has (some options.upgrade_url) none)
    unfolding configure pure
    Owns-configure = record {
      at = λ b h. (configured options.cert_pem options.skip_common_name_check _ h.0, h.1);
    }

    find_netif-Has :
        (name : CString) (own : Own P R I out K options) (w : World)
        → Has (some options.upgrade_url) none own
        → is_ok (find_netif P R I out K options name own w).0 ≡ true
        → (netif : Option ℕ) × IsFound (some name) netif
          × Has (some options.upgrade_url) netif (find_netif P R I out K options name own w).1
    unfolding find_netif
    find_netif-Has name own w h ok = elim (Option-cases (out.netif_from_desc name w)) [
      | inl e ↦ absurd (ground (arith, e, ok))
      | inr (a, e) ↦ (some a, (w, a, e, refl), (rw (e, h.0) refl, h.1))
    ]

    pub Owns-find_netif :
        (bind_if : Option CString)
        → Owns (Has (some options.upgrade_url) none) (bind P R I out K options bind_if) (λ _ own.
          (netif : Option ℕ) × IsFound bind_if netif × Has (some options.upgrade_url) netif own)
    unfolding bind
    Owns-find_netif none = Owns-from (λ own h. (none, refl, h)) (Owns-pure tt _)
    Owns-find_netif (some name) =
        Owns-required bind_netif (find_netif P R I out K options name) _ _ (find_netif-Has name)

    read_url-Chosen :
        (own : Own P R I out K options) (w : World)
        → Bound own
        → is_ok (read_url P R I out K options own w).0 ≡ true
        → (netif : Option ℕ) × (url : Option CString) × IsFound options.bind_if netif
          × IsGiven true url
          × Has url netif (read_url P R I out K options own w).1
    unfolding read_url take_url
    read_url-Chosen own w (netif, found, h) ok =
        let from = out.stdin (out.configure_stdin_stdout w) in
        elim (Bool-cases (is_zero (strcmp options.upgrade_url (codes "FROM_STDIN")))) [
          | inl asked ↦ elim (Option-cases (url_from_stdin from.0)) [
            | inl empty ↦ (
              netif,
              some [],
              found,
              (asked, out.configure_stdin_stdout w, [], rw empty refl, refl),
              rw (asked, read_url, empty, take_url) (rw h.0 refl, h.1),
            )
            | inr (line, read) ↦ (
              netif,
              some line,
              found,
              (asked, out.configure_stdin_stdout w, line, rw read refl, refl),
              rw (asked, read_url, read, take_url) (rw h.0 refl, h.1),
            )
          ]
          | inr other ↦ absurd (ground (arith, other, ok))
        ]

    pub Owns-choose_url :
        (from_stdin : Bool)
        → Owns Bound (choose_url P R I out K options from_stdin) (λ _ own.
          (netif : Option ℕ) × (url : Option CString) × IsFound options.bind_if netif
          × IsGiven from_stdin url
          × Has url netif own)
    unfolding choose_url
    Owns-choose_url false =
        Owns-from
          (λ own h.
            let (netif, found, has) = h in (netif, some options.upgrade_url, found, refl, has))
          (Owns-pure tt _)
    Owns-choose_url true =
        Owns-required stdin_url (read_url P R I out K options) _ _ read_url-Chosen
