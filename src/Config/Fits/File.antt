-- ===== src/Config/Fits/File.antt =====
-- config.py, `load`: the sections of a file, and the setting of [compat].
use Prim.Native.String.{String}
use ipsc2hbp.Base.{
  true, false, ◌⊎◌, inl, inr, none, some, [], ◌≡◌, refl, arith, sym, subst, ap, ◌∙◌, lookup,
  list_eqb, list_eqb_iff, Option-cases,
}
use ipsc2hbp.Config.{PacketFlow}
use ipsc2hbp.Config.Text.{Text, codes, string_eq}
use ipsc2hbp.Config.Toml.{Value, text, int, boolean, table, other, Entries, entries, Table}
use ipsc2hbp.Config.Check.{section_of, required_section, optional_section, get_str, member}
use ipsc2hbp.Config.Settings.{valid_packet_flows, packet_flow_of, read_packet_flow}
use ipsc2hbp.Config.Ranges.{append-nil_inv, get_str-member}
use ipsc2hbp.Config.Fits.{WordSetting, get_str_of_word, get_str-WordSetting}

-- A section is a table.
abbrev pub SectionIs : Table → String → Table → Type 0
SectionIs raw name t = (es : Entries) × (lookup name raw ≡ some (table es)) × (entries es ≡ t)

abbrev pub OptionalSectionIs : Table → String → Table → Type 0
OptionalSectionIs raw name t = SectionIs raw name t ⊎ ((t ≡ []) × (lookup name raw ≡ none))

section_of-table :
    (name : String) (v : Value)
    → (section_of name v).1 ≡ []
    → (es : Entries) × (v ≡ table es) × (entries es ≡ (section_of name v).0)
unfolding section_of
section_of-table name (table es) h = (es, refl, refl)
section_of-table name (text t) h = cc
section_of-table name (int n) h = cc
section_of-table name (boolean b) h = cc
section_of-table name (other k) h = cc

pub required_section-SectionIs :
    (raw : Table) (name : String)
    → (required_section raw name).1 ≡ []
    → SectionIs raw name (required_section raw name).0
unfolding required_section
required_section-SectionIs raw name h = elim (Option-cases (lookup name raw)) [
  | inl e ↦ absurd (let bad : ⊥ = ground arith in bad)
  | inr (v, e) ↦
      let (es, p, q) = section_of-table name v (ground arith) in (es, e ∙ ap some p, ground arith)
]

pub optional_section-OptionalSectionIs :
    (raw : Table) (name : String)
    → (optional_section raw name).1 ≡ []
    → OptionalSectionIs raw name (optional_section raw name).0
unfolding optional_section
optional_section-OptionalSectionIs raw name h = elim (Option-cases (lookup name raw)) [
  | inl e ↦ inr (ground arith, e)
  | inr (v, e) ↦
      let (es, p, q) = section_of-table name v (ground arith) in
      inl (es, e ∙ ap some p, ground arith)
]

pub required_section_of :
    (raw : Table) (name : String) (t : Table)
    → SectionIs raw name t
    → required_section raw name ≡ (t, [])
unfolding required_section section_of
required_section_of raw name t (es, e, q) = ground arith

pub optional_section_of :
    (raw : Table) (name : String) (t : Table)
    → OptionalSectionIs raw name t
    → optional_section raw name ≡ (t, [])
unfolding optional_section section_of
optional_section_of raw name t (inl (es, e, q)) = ground arith
optional_section_of raw name t (inr (d, e)) = ground arith

abbrev pub packet_flow_word : PacketFlow → Text
packet_flow_word PacketFlow.packet_translator = codes "PACKET_TRANSLATOR"
packet_flow_word PacketFlow.legacy_ambe = codes "LEGACY_AMBE"

packet_flow_word-of :
    (w : Text) → member w valid_packet_flows ≡ true → packet_flow_word (packet_flow_of w) ≡ w
packet_flow_word-of w h =
    ground (arith, list_eqb_iff w (codes "PACKET_TRANSLATOR"), list_eqb_iff w (codes "LEGACY_AMBE"))

packet_flow_of-word : (f : PacketFlow) → packet_flow_of (packet_flow_word f) ≡ f
unfolding list_eqb
packet_flow_of-word PacketFlow.packet_translator = refl
packet_flow_of-word PacketFlow.legacy_ambe = refl

abbrev pub FlowSetting : Table → PacketFlow → Type 0
FlowSetting sec flow =
    WordSetting sec "packet_flow" valid_packet_flows (codes "PACKET_TRANSLATOR")
      (packet_flow_word flow)

pub read_packet_flow-FlowSetting :
    (sec : Table) → (read_packet_flow sec).1 ≡ [] → FlowSetting sec (read_packet_flow sec).0
unfolding read_packet_flow list_eqb
read_packet_flow-FlowSetting sec h =
    let word =
      get_str sec "compat" "packet_flow" false (codes "PACKET_TRANSLATOR") (some valid_packet_flows)
        false in
    let m =
      get_str-member sec "compat" "packet_flow" false (codes "PACKET_TRANSLATOR") valid_packet_flows
        refl in
    subst (λ t. WordSetting sec "packet_flow" valid_packet_flows (codes "PACKET_TRANSLATOR") t)
      (sym (packet_flow_word-of word.0 m))
      (get_str-WordSetting sec "compat" "packet_flow" valid_packet_flows (codes "PACKET_TRANSLATOR")
        (append-nil_inv word.1 [] h).0)

pub read_packet_flow_of :
    (sec : Table) (flow : PacketFlow) → FlowSetting sec flow → read_packet_flow sec ≡ (flow, [])
unfolding read_packet_flow
read_packet_flow_of sec flow v = rw (
  get_str_of_word sec "compat" "packet_flow" valid_packet_flows (codes "PACKET_TRANSLATOR")
      (packet_flow_word flow) v,
  packet_flow_of-word flow,
)
