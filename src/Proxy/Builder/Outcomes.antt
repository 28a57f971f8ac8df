-- ===== src/Proxy/Builder/Outcomes.antt =====
-- What comes out of every input, field by field.
use roamux.Base.{String, ◌≡◌, ◌⊎◌, true, false, none, some}
use roamux.Proxy.Builder.{system, direct, manual, pac, Input, Net, Outcome, build_manual}
use roamux.Proxy.Builder.Accepted.{Fit}
use roamux.Proxy.Builder.Refusals.{RefusesManual, RefusesPac}

module _ (net : Net) where
  -- A scheme that a PAC script is fetched by, and a data url that can be read.
  pub record PacIsFit (url : net.Url) : Type 0 where
    pub valid : net.url_is_valid url ≡ true
    pub fetched :
        (net.scheme_is url "http" ≡ true)
        ⊎ ((net.scheme_is url "https" ≡ true) ⊎ (net.scheme_is url "data" ≡ true))
    pub parses : net.scheme_is url "data" ≡ true → net.data_url_parses url ≡ true

  -- The dictionary that an input stands for.
  pub data StandsFor (i : Input) : net.Dictionary → Type 0 where
    by_direct : i.mode ≡ direct → StandsFor i net.create_direct
    by_manual : (d : net.Dictionary) → i.mode ≡ manual → Fit net i d → StandsFor i d
    by_pac :
        i.mode ≡ pac
        → PacIsFit (net.parse_url i.pac_url)
        → StandsFor i (net.create_pac_script i.pac_url i.pac_mandatory)

  pub data Refuses (i : Input) (field reason : String) : Type 0 where
    of_manual : i.mode ≡ manual → RefusesManual net i field reason → Refuses i field reason
    of_pac : i.mode ≡ pac → RefusesPac net i field reason → Refuses i field reason

  -- The three kinds of outcome, each with all its fields.
  pub data IsWhole (i : Input) : Outcome net.Dictionary → Type 0 where
    clears :
        i.mode ≡ system
        → IsWhole i (record { ok = true; field = ""; reason = ""; dict = none; clear_pref = true })
    stores :
        (d : net.Dictionary)
        → StandsFor i d
        → IsWhole i
            (record { ok = true; field = ""; reason = ""; dict = some d; clear_pref = false })
    refuses :
        (field reason : String)
        → Refuses i field reason
        → IsWhole i
            (record { ok = false; field = field; reason = reason; dict = none; clear_pref = false })

  -- Of a manual input.
  abbrev Whole : Input → Outcome net.Dictionary → Type 0
  Whole i o = i.mode ≡ manual → build_manual net i ≡ o → IsWhole i o
