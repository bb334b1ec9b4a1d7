-- ===== src/Config/Load/Exact.antt =====
-- config.py, `load`: which files it accepts, and with which settings.
use ipsc2hbp.Base.{false, ◌↔◌, Option, [], ◌≡◌, ap, ◌∙◌}
use ipsc2hbp.Dmr.{Bytes}
use ipsc2hbp.Config.{Config, PacketFlow}
use ipsc2hbp.Config.Text.{Text, codes, string_eq}
use ipsc2hbp.Config.Toml.{Table, no_repeater_id}
use ipsc2hbp.Config.Check.{report_if, required_section, optional_section}
use ipsc2hbp.Config.Settings.{
  valid_log_levels, is_zero, read_log_level, read_packet_flow, Endpoint, read_endpoint, Upstream,
  read_upstream, Behaviour, read_behaviour,
}
use ipsc2hbp.Config.Settings.Hbp.{HbpSettings, read_hbp, Radio, read_radio}
use ipsc2hbp.Config.Ranges.{parts, report_if-nil}
use ipsc2hbp.Config.Fits.{WordSetting, get_str_of_word, get_str-WordSetting}
use ipsc2hbp.Config.Fits.File.{
  SectionIs, OptionalSectionIs, required_section-SectionIs, optional_section-OptionalSectionIs,
  required_section_of, optional_section_of, FlowSetting, read_packet_flow-FlowSetting,
  read_packet_flow_of,
}
use ipsc2hbp.Config.Fits.Hbp.{
  HbpFits, read_hbp-HbpFits, read_hbp_of_fits, RadioFits, read_radio-RadioFits, read_radio_of_fits,
}
use ipsc2hbp.Config.Fits.Ipsc.{
  EndpointFits, read_endpoint-EndpointFits, read_endpoint_of_fits, UpstreamFits,
  read_upstream-UpstreamFits, read_upstream_of_fits, BehaviourFits, read_behaviour-BehaviourFits,
  read_behaviour_of_fits,
}
use ipsc2hbp.Config.Load.{parsed, ok, resolved_id, config_of, check, load, outcome}
use ipsc2hbp.Config.Load.Valid.{outcome-ok}

-- The settings of a file, section by section.
pub record Parts : Type 0 where
  pub level : Text
  pub endpoint : Endpoint
  pub upstream : Upstream
  pub behaviour : Behaviour
  pub flow : PacketFlow
  pub hbp : HbpSettings
  pub radio : Radio

abbrev pub config : Parts → Config
config s = config_of s.level s.endpoint s.upstream s.behaviour s.flow s.hbp s.radio

module _ (inet_aton : Bytes → Option Bytes) where
  -- A file that gives the settings: with its sections, each setting as it is described, and an id
  -- for HBP.
  pub record Gives (raw : Table) (s : Parts) : Type 0 where
    pub global_s : Table
    pub ipsc_s : Table
    pub upstream_s : Table
    pub compat_s : Table
    pub hbp_s : Table
    pub global_is : SectionIs raw "global" global_s
    pub ipsc_is : SectionIs raw "ipsc" ipsc_s
    pub upstream_is : OptionalSectionIs raw "ipsc_upstream" upstream_s
    pub compat_is : OptionalSectionIs raw "compat" compat_s
    pub hbp_is : SectionIs raw "hbp" hbp_s
    pub level : WordSetting global_s "log_level" valid_log_levels (codes "INFO") s.level
    pub endpoint : EndpointFits inet_aton ipsc_s s.endpoint
    pub upstream : UpstreamFits inet_aton upstream_s ipsc_s s.endpoint.mode s.upstream
    pub behaviour : BehaviourFits ipsc_s s.endpoint.mode s.behaviour
    pub flow : FlowSetting compat_s s.flow
    pub hbp : HbpFits hbp_s s.hbp
    pub radio : RadioFits hbp_s s.radio
    pub has_id : is_zero (resolved_id s.endpoint s.hbp) ≡ false

  check_of_Gives : (raw : Table) (s : Parts) → Gives raw s → check inet_aton raw ≡ (config s, [])
  unfolding check read_log_level
  check_of_Gives raw s g = rw (
    required_section_of raw "global" g.global_s g.global_is,
    required_section_of raw "ipsc" g.ipsc_s g.ipsc_is,
    optional_section_of raw "ipsc_upstream" g.upstream_s g.upstream_is,
    optional_section_of raw "compat" g.compat_s g.compat_is,
    required_section_of raw "hbp" g.hbp_s g.hbp_is,
    get_str_of_word g.global_s "global" "log_level" valid_log_levels (codes "INFO") s.level g.level,
    read_endpoint_of_fits inet_aton g.ipsc_s s.endpoint g.endpoint,
    read_upstream_of_fits inet_aton g.upstream_s g.ipsc_s s.endpoint.mode s.upstream g.upstream,
    read_behaviour_of_fits g.ipsc_s s.endpoint.mode s.behaviour g.behaviour,
    read_packet_flow_of g.compat_s s.flow g.flow,
    read_hbp_of_fits g.hbp_s s.hbp g.hbp,
    read_radio_of_fits g.hbp_s s.radio g.radio,
    g.has_id,
  )

  -- The parts that are read from a file.
  abbrev read_parts : Table → Parts
  read_parts raw =
      let ipsc_s = (required_section raw "ipsc").0 in
      let hbp_s = (required_section raw "hbp").0 in
      let e = (read_endpoint inet_aton ipsc_s).0 in
      record {
        level = (read_log_level (required_section raw "global").0).0;
        endpoint = e;
        upstream =
            (read_upstream inet_aton (optional_section raw "ipsc_upstream").0 ipsc_s e.mode).0;
        behaviour = (read_behaviour ipsc_s e.mode).0;
        flow = (read_packet_flow (optional_section raw "compat").0).0;
        hbp = (read_hbp hbp_s).0;
        radio = (read_radio hbp_s).0;
      }

  check-Gives : (raw : Table) → (check inet_aton raw).1 ≡ [] → Gives raw (read_parts raw)
  unfolding check
  check-Gives raw h =
      let global_s = required_section raw "global" in
      let ipsc_s = required_section raw "ipsc" in
      let up_s = optional_section raw "ipsc_upstream" in
      let compat_s = optional_section raw "compat" in
      let hbp_s = required_section raw "hbp" in
      let e = read_endpoint inet_aton ipsc_s.0 in
      let (s1, h1) = parts global_s h in
      let (s2, h2) = parts ipsc_s h1 in
      let (s3, h3) = parts up_s h2 in
      let (s4, h4) = parts compat_s h3 in
      let (s5, h5) = parts hbp_s h4 in
      let (l, h6) = parts (read_log_level global_s.0) h5 in
      let (ve, h7) = parts e h6 in
      let (vu, h8) = parts (read_upstream inet_aton up_s.0 ipsc_s.0 e.0.mode) h7 in
      let (vb, h9) = parts (read_behaviour ipsc_s.0 e.0.mode) h8 in
      let (f, h10) = parts (read_packet_flow compat_s.0) h9 in
      let (vs, h11) = parts (read_hbp hbp_s.0) h10 in
      let (r, h12) = parts (read_radio hbp_s.0) h11 in
      let unset = is_zero (resolved_id e.0 (read_hbp hbp_s.0).0) in
      let (z, _) = parts (report_if unset no_repeater_id) h12 in
      record {
        global_s = global_s.0;
        ipsc_s = ipsc_s.0;
        upstream_s = up_s.0;
        compat_s = compat_s.0;
        hbp_s = hbp_s.0;
        global_is = required_section-SectionIs raw "global" s1;
        ipsc_is = required_section-SectionIs raw "ipsc" s2;
        upstream_is = optional_section-OptionalSectionIs raw "ipsc_upstream" s3;
        compat_is = optional_section-OptionalSectionIs raw "compat" s4;
        hbp_is = required_section-SectionIs raw "hbp" s5;
        level =
            unfold read_log_level in
            get_str-WordSetting global_s.0 "global" "log_level" valid_log_levels (codes "INFO") l;
        endpoint = read_endpoint-EndpointFits inet_aton ipsc_s.0 ve;
        upstream = read_upstream-UpstreamFits inet_aton up_s.0 ipsc_s.0 e.0.mode vu;
        behaviour = read_behaviour-BehaviourFits ipsc_s.0 e.0.mode vb;
        flow = read_packet_flow-FlowSetting compat_s.0 f;
        hbp = read_hbp-HbpFits hbp_s.0 vs;
        radio = read_radio-RadioFits hbp_s.0 r;
        has_id = report_if-nil unset no_repeater_id z;
      }

  -- A TOML file is loaded with a configuration exactly if it describes it: its sections are
  -- tables, each setting has its type and its range or is left out where it may be, texts lose
  -- the white space at their ends and words are read in capitals, the other names of a setting
  -- serve where the first is missing, the addresses parse, the ids that the mode needs are not
  -- 0, and some id is there for HBP.
  pub load_iff :
      (raw : Table) (cfg : Config)
      → (load inet_aton (parsed raw) ≡ ok cfg) ↔ ((s : Parts) × Gives raw s × (config s ≡ cfg))
  unfolding load
  load_iff raw cfg = (
    λ h.
        let (clean, same) = outcome-ok inet_aton (check inet_aton raw) cfg h in
        (read_parts raw, check-Gives raw clean, unfold check in same),
    λ r. ap (outcome inet_aton) (check_of_Gives raw r.0 r.1) ∙ ap ok r.2,
  )
