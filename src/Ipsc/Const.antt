-- ===== src/Ipsc/Const.antt =====
-- ipsc/const.py: opcodes, burst types, masks and field offsets.
use ipsc2hbp.Base.{ℕ, [], ◌∷◌}
use ipsc2hbp.Dmr.{Bytes}

abbrev pub group_voice : ℕ
group_voice = 0x80

abbrev pub master_reg_req : ℕ
master_reg_req = 0x90

abbrev pub master_reg_reply : ℕ
master_reg_reply = 0x91

abbrev pub peer_list_req : ℕ
peer_list_req = 0x92

abbrev pub peer_list_reply : ℕ
peer_list_reply = 0x93

abbrev pub peer_reg_req : ℕ
peer_reg_req = 0x94

abbrev pub peer_reg_reply : ℕ
peer_reg_reply = 0x95

abbrev pub master_alive_req : ℕ
master_alive_req = 0x96

abbrev pub master_alive_reply : ℕ
master_alive_reply = 0x97

abbrev pub peer_alive_req : ℕ
peer_alive_req = 0x98

abbrev pub peer_alive_reply : ℕ
peer_alive_reply = 0x99

abbrev pub de_reg_req : ℕ
de_reg_req = 0x9a

abbrev pub de_reg_reply : ℕ
de_reg_reply = 0x9b

abbrev pub voice_head : ℕ
voice_head = 0x01

abbrev pub voice_term : ℕ
voice_term = 0x02

abbrev pub slot1_voice : ℕ
slot1_voice = 0x0a

abbrev pub slot2_voice : ℕ
slot2_voice = 0x8a

abbrev pub ipsc_ver : Bytes
ipsc_ver = 0x04 ∷ 0x02 ∷ 0x04 ∷ 0x01 ∷ []

abbrev pub voice_call_msk : ℕ
voice_call_msk = 0x04

abbrev pub pkt_auth_msk : ℕ
pkt_auth_msk = 0x10

abbrev pub mstr_peer_msk : ℕ
mstr_peer_msk = 0x01

abbrev pub ts_call_msk : ℕ
ts_call_msk = 0x20

abbrev pub end_msk : ℕ
end_msk = 0x40

abbrev pub gv_ipsc_seq_off : ℕ
gv_ipsc_seq_off = 5

abbrev pub gv_src_sub_off : ℕ
gv_src_sub_off = 6

abbrev pub gv_dst_group_off : ℕ
gv_dst_group_off = 9

abbrev pub gv_call_info_off : ℕ
gv_call_info_off = 17

abbrev pub gv_burst_type_off : ℕ
gv_burst_type_off = 30

abbrev pub auth_digest_len : ℕ
auth_digest_len = 10
