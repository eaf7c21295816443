-- ===== src/Device/Beacon.antt =====
-- The beacon of a device from tsd_broadcast_beacons of nso/src/nso_lib/nso_tsd.c over the air to the
-- base station, __fwd_beacon of bs/src/bs_lib/nso_tsd.c, and what vTSD gets of it.
use nrg_5_sorbonne.Base.{
  ℕ, ◌+◌, ◌-◌, ◌^◌, ◌≤◌, ◌<◌, ◌≡◌, refl, ap, ◌∙◌, Bool-cases, inl, inr, some, List, [], ◌∷◌, ◌++◌,
  ◌==◌, if◌then◌else◌, arith, length, take, drop, length-take, le→ltb, ltb, false,
}
use nrg_5_sorbonne.Kernel.{Kernel}
use nrg_5_sorbonne.Memory.{ok, Returns, returns, Returns-bind}
use nrg_5_sorbonne.NsoCommon.{to_bytes, alloc_bc_device_id}
use nrg_5_sorbonne.Packet.{peek, poke}
use nrg_5_sorbonne.Packet.Header.{put_bytes-ok}
use nrg_5_sorbonne.Packet.Bytes.{peek-poke_self, peek-poke_apart}
use nrg_5_sorbonne.Packet.Fields.{Header-payload, src-ok, start_pkt-Started}
use nrg_5_sorbonne.Packet.Contents.{peek-append}
use nrg_5_sorbonne.Packet.Made.{Made, Made-as, alloc_packet-Fits, finish_pkt-Made}
use nrg_5_sorbonne.Nso.State.{Env, NsoLayer}
use nrg_5_sorbonne.Tsd.{aaa_get_credentials, cred_bytes}
use nrg_5_sorbonne.Device.Tsd.{get_nso_beacon}

module _ ⦃K : Kernel⦄ (env : Env) where
  -- What recv writes to the buffer of the credentials.
  abbrev pub reply_of : NsoLayer → List ℕ
  reply_of n =
      take (env.credentials (to_bytes 8 n.dev_id)).0 (env.credentials (to_bytes 8 n.dev_id)).1

  -- The device with its credentials, which the AAA module gives once.
  abbrev pub credited : NsoLayer → NsoLayer
  credited n =
      let size = (env.credentials (to_bytes 8 n.dev_id)).0 in
      let reply = reply_of n in
      if n.aaa_cred_size == 0
      then record n {
        aaa_reg_cred = reply ++ drop (length reply) n.aaa_reg_cred;
        aaa_cred_size = size;
      }
      else n

  abbrev pub creds : NsoLayer → List ℕ
  creds n = take (credited n).aaa_cred_size (credited n).aaa_reg_cred

  credited-ok :
      (n : NsoLayer)
      → length (reply_of n) ≤ 1024
      → (if n.aaa_cred_size == 0 then aaa_get_credentials env (to_bytes 8 n.dev_id) n else ok n)
        ≡ ok (credited n)
  unfolding aaa_get_credentials
  credited-ok n small = elim (Bool-cases (n.aaa_cred_size == 0)) [
    | inl first ↦ rw (first, le→ltb _ _ small) refl
    | inr again ↦ rw again refl
  ]

  cred_bytes-ok :
      (n : NsoLayer)
      → length (creds n) ≡ (credited n).aaa_cred_size
      → cred_bytes (credited n) ≡ ok (creds n)
  unfolding cred_bytes
  cred_bytes-ok n whole =
      let enough : ltb (length (credited n).aaa_reg_cred) (credited n).aaa_cred_size ≡ false =
        ground (arith, whole, length-take (credited n).aaa_cred_size (credited n).aaa_reg_cred) in
      rw enough refl

  -- What the credentials need: as many bytes as their size says, in the packet.
  pub record HasCreds (n : NsoLayer) : Type 0 where
    pub reply : length (reply_of n) ≤ 1024
    pub whole : length (creds n) ≡ (credited n).aaa_cred_size
    pub fits : 21 + (credited n).aaa_cred_size ≤ n.mtu

  -- The beacon: its type and the credentials behind the header, to all devices.
  pub get_nso_beacon-Made :
      (n : NsoLayer) (block : List ℕ)
      → env.block ≡ some block
      → length block ≡ n.mtu + 128
      → n.mtu < 2 ^ 14
      → n.dev_id < 2 ^ 64
      → HasCreds n
      → Returns
          (λ r.
            Made r.0 n.dev_id alloc_bc_device_id 0xF000
              (21 + (credited n).aaa_cred_size)
              (0 ∷ creds n)
            × (r.0.data_at ≡ 64)
            × (r.1 ≡ credited n))
          (get_nso_beacon env n)
  unfolding get_nso_beacon poke
  get_nso_beacon-Made n block given long small b c = rw given (
      Returns-bind (alloc_packet-Fits block n.mtu long) λ p0 (f0, empty, at).
        Returns-bind
          (start_pkt-Started p0 (n.mtu + 64) n.dev_id alloc_bc_device_id 0xF000 f0
            (omega (arith, c.fits)))
          λ p1 s.
            let size = (credited n).aaa_cred_size in
            let p2 = poke 20 (0 ∷ []) p1 in
            let h2 = Header-payload s.header 20 (0 ∷ []) (omega arith) in
            let p3 = poke 21 (creds n) p2 in
            let h3 = Header-payload h2 21 (creds n) (omega arith) in
            rw
              (
                put_bytes-ok p1 s.header.fits 20 (0 ∷ []) (omega (arith, c.fits)),
                src-ok h2 b,
                credited-ok n c.reply,
                cred_bytes-ok n c.whole,
                put_bytes-ok p2 h2.fits 21 (creds n) (omega (arith, c.fits, c.whole)),
              )
              (Returns-bind
                (finish_pkt-Made p3 (n.mtu + 64) n.dev_id alloc_bc_device_id 0xF000 s.len_ver
                  (size + 20 + 1) h3 (omega (arith, s.no_version)) (omega arith)
                  (omega (arith, c.fits)) (omega (arith, c.fits)) (s.same_len ∙ empty))
                λ q (m, at').
                  let type : peek p3 20 1 ≡ 0 ∷ [] =
                    peek-poke_apart p2 21 (creds n) 20 1 (inl (omega arith))
                    ∙ peek-poke_self p1 20 (0 ∷ []) 1 (omega (arith, s.header.fits.within, c.fits))
                        refl in
                  let rest : peek p3 21 size ≡ creds n =
                    peek-poke_self p2 21 (creds n) size (omega (arith, h2.fits.within, c.fits))
                      (omega (arith, c.whole)) in
                  let body : peek p3 20 (size + 20 + 1 - 20) ≡ 0 ∷ creds n =
                    peek-append p3 20 1 size (size + 20 + 1 - 20) (omega arith)
                    ∙ ap (λ bs. bs ++ peek p3 21 size) type
                    ∙ ap (◌∷◌ 0) rest in
                  returns (Made-as m (omega arith) body, at' ∙ s.same_data ∙ at, refl)))
