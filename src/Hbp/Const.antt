-- ===== src/Hbp/Const.antt =====
-- hbp/const.py: commands, flag bits and field offsets.
use ipsc2hbp.Base.{ℕ, [], ◌∷◌}
use ipsc2hbp.Dmr.{Bytes}

abbrev pub hbpf_dmrd : Bytes
hbpf_dmrd = b'D' ∷ b'M' ∷ b'R' ∷ b'D' ∷ []

abbrev pub hbpf_rptl : Bytes
hbpf_rptl = b'R' ∷ b'P' ∷ b'T' ∷ b'L' ∷ []

abbrev pub hbpf_rptk : Bytes
hbpf_rptk = b'R' ∷ b'P' ∷ b'T' ∷ b'K' ∷ []

abbrev pub hbpf_rptc : Bytes
hbpf_rptc = b'R' ∷ b'P' ∷ b'T' ∷ b'C' ∷ []

abbrev pub hbpf_rptack : Bytes
hbpf_rptack = b'R' ∷ b'P' ∷ b'T' ∷ b'A' ∷ b'C' ∷ b'K' ∷ []

abbrev pub hbpf_mstnak : Bytes
hbpf_mstnak = b'M' ∷ b'S' ∷ b'T' ∷ b'N' ∷ b'A' ∷ b'K' ∷ []

abbrev pub hbpf_rptping : Bytes
hbpf_rptping = b'R' ∷ b'P' ∷ b'T' ∷ b'P' ∷ b'I' ∷ b'N' ∷ b'G' ∷ []

abbrev pub hbpf_mstpong : Bytes
hbpf_mstpong = b'M' ∷ b'S' ∷ b'T' ∷ b'P' ∷ b'O' ∷ b'N' ∷ b'G' ∷ []

abbrev pub hbpf_rpto : Bytes
hbpf_rpto = b'R' ∷ b'P' ∷ b'T' ∷ b'O' ∷ []

abbrev pub hbpf_rptcl : Bytes
hbpf_rptcl = b'R' ∷ b'P' ∷ b'T' ∷ b'C' ∷ b'L' ∷ []

abbrev pub hbpf_mstcl : Bytes
hbpf_mstcl = b'M' ∷ b'S' ∷ b'T' ∷ b'C' ∷ b'L' ∷ []

abbrev pub hbpf_tgid_ts2 : ℕ
hbpf_tgid_ts2 = 0x80

abbrev pub hbpf_frametype_voice : ℕ
hbpf_frametype_voice = 0x00

abbrev pub hbpf_frametype_voicesync : ℕ
hbpf_frametype_voicesync = 0x10

abbrev pub hbpf_frametype_datasync : ℕ
hbpf_frametype_datasync = 0x20

abbrev pub hbpf_slt_vhead : ℕ
hbpf_slt_vhead = 0x01

abbrev pub hbpf_slt_vterm : ℕ
hbpf_slt_vterm = 0x02

abbrev pub hbpf_frametype_mask : ℕ
hbpf_frametype_mask = 0x30

abbrev pub hbpf_dtype_mask : ℕ
hbpf_dtype_mask = 0x0f

abbrev pub dmrd_len : ℕ
dmrd_len = 55

abbrev pub dmrd_src_off : ℕ
dmrd_src_off = 5

abbrev pub dmrd_dst_off : ℕ
dmrd_dst_off = 8

abbrev pub dmrd_flags_off : ℕ
dmrd_flags_off = 15

abbrev pub dmrd_payload_off : ℕ
dmrd_payload_off = 20

abbrev pub rptc_len : ℕ
rptc_len = 302

abbrev pub rptc_slots_value : Bytes
rptc_slots_value = b'3' ∷ []

abbrev pub rptack_nonce_off : ℕ
rptack_nonce_off = 6
