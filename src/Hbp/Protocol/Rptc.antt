-- ===== src/Hbp/Protocol/Rptc.antt =====
-- hbp/protocol.py: the layout of the RPTC packet (`_build_rptc`).
use ipsc2hbp.Base.{
  ℕ, ◌+◌, ◌-◌, ◌≡◌, ◌++◌, arith, length, replicate, length-append, length-take, length-replicate,
}
use ipsc2hbp.Dmr.{Bytes}
use ipsc2hbp.Config.{Config}
use ipsc2hbp.Hbp.Const.{rptc_len, rptc_slots_value}
use ipsc2hbp.Hbp.Protocol.{enc, build_rptc}

pub length-enc : (n : ℕ) (s : Bytes) → length (enc n s) ≡ n
unfolding enc
length-enc n s = omega (
  arith,
  length-take n (s ++ replicate (n - length s) 0x00),
  length-append s (replicate (n - length s) 0x00),
  length-replicate {A = ℕ} (n - length s) 0x00,
)

-- The length of an encoded field before the rest.
field : (n m : ℕ) (s ys : Bytes) → length ys ≡ m → length (enc n s ++ ys) ≡ n + m
field n m s ys q = omega (arith, length-append (enc n s) ys, length-enc n s)

-- Whatever texts are configured, the RPTC packet has 302 bytes.
pub length-build_rptc : (cfg : Config) → length (build_rptc cfg) ≡ rptc_len
unfolding build_rptc
length-build_rptc cfg =
    let t = field 40 40 cfg.software_id (enc 40 cfg.package_id) (length-enc 40 cfg.package_id) in
    let u = field 124 80 cfg.url _ t in
    let v =
      field 19 205 cfg.description
        (rptc_slots_value ++ (enc 124 cfg.url ++ (enc 40 cfg.software_id ++ enc 40 cfg.package_id)))
        (omega (arith, u)) in
    let l =
      field 9 247 cfg.longitude _ (field 3 244 cfg.height _ (field 20 224 cfg.location _ v)) in
    let c = field 2 264 cfg.colorcode _ (field 8 256 cfg.latitude _ l) in
    let f = field 9 268 cfg.tx_freq _ (field 2 266 cfg.tx_power _ c) in
    let s = field 8 286 cfg.callsign _ (field 9 277 cfg.rx_freq _ f) in omega (arith, s)
