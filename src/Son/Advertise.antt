-- ===== src/Son/Advertise.antt =====
-- son_nbr_advertise of bs/src/bs_lib/nso_son.c: the frames of one packet that is sent on each interface
-- in turn, whose data pointer wifi_send moves back by a header each time.
use nrg_5_sorbonne.Base.{
  ℕ, suc, ◌+◌, ◌≤◌, ◌<◌, ◌≡◌, refl, ap, sym, ◌∙◌, Bool-cases, inl, inr, true, false, some, none,
  subst, List, [], ◌∷◌, arith, length, take, replicate, ltb,
}
use nrg_5_sorbonne.Kernel.{Kernel}
use nrg_5_sorbonne.Memory.{ok, Returns, returns, Returns-bind, Returns-mono}
use nrg_5_sorbonne.NsoCommon.{alloc_bc_device_id, alloc_l2addr}
use nrg_5_sorbonne.NsoIf.{NsoIf}
use nrg_5_sorbonne.Packet.{Packet, peek, poke, slice}
use nrg_5_sorbonne.Packet.Header.{Fits, put_bytes-ok}
use nrg_5_sorbonne.Packet.Bytes.{peek-poke_self}
use nrg_5_sorbonne.Packet.Fields.{Header-payload, start_pkt-Started}
use nrg_5_sorbonne.Packet.Made.{Made, Made-as, alloc_packet-Fits, finish_pkt-Made}
use nrg_5_sorbonne.Packet.Contents.{length-peek}
use nrg_5_sorbonne.Wifi.{Frame, Sent, nso_if_broadcast, wifi_broadcast, wifi_send}
use nrg_5_sorbonne.Wifi.RoundTrip.{SentAs, wifi_send-SentAs}
use nrg_5_sorbonne.Nso.State.{Env, NsoLayer, iface_at, log_frame}
use nrg_5_sorbonne.Son.{advertise_loop, son_nbr_advertise, get_nbr_adv_pkt}

-- A frame to all stations on an interface, with these bytes behind its header.
pub record Broadcast (i : NsoIf) (bytes : List ℕ) (f : Frame) : Type 0 where
  pub on : f.sockfd ≡ i.handle.sockfd
  pub len : length f.bytes ≡ length bytes + 14
  pub to_all : slice 0 6 f.bytes ≡ replicate 6 0xff
  pub from : slice 6 6 f.bytes ≡ take 6 i.handle.if_mac
  pub inner : slice 14 (length bytes) f.bytes ≡ bytes

-- The frames of a packet with `at` bytes before its data, on each interface in turn: every frame holds
-- the frame before it, and where there is no space for a header left there is none.
pub data Advertised : ℕ → List ℕ → List NsoIf → List Frame → Type 0 where
  done : {at : ℕ} {bytes : List ℕ} → Advertised at bytes [] []
  sent :
      {at : ℕ} {bytes : List ℕ} {i : NsoIf} {is : List NsoIf} {fs : List Frame} (left : ℕ)
      (f : Frame)
      → left + 14 ≡ at
      → Broadcast i bytes f
      → Advertised left f.bytes is fs
      → Advertised at bytes (i ∷ is) (f ∷ fs)
  no_room :
      {at : ℕ} {bytes : List ℕ} {i : NsoIf} {is : List NsoIf} {fs : List Frame}
      → at < 14
      → Advertised at bytes is fs
      → Advertised at bytes (i ∷ is) fs

module _ ⦃K : Kernel⦄ where
  abbrev pub log_frames : List Frame → NsoLayer → NsoLayer
  log_frames [] n = n
  log_frames (f ∷ fs) n = log_frames fs (log_frame (some f) n)

  -- The interfaces from `i` on, with addresses of 6 bytes.
  abbrev pub Slots : NsoLayer → ℕ → List NsoIf → Type 0
  Slots n i [] = Unit {0}
  Slots n i (s ∷ is) =
      (iface_at n i ≡ ok (some s)) × (6 ≤ length s.handle.if_mac) × Slots n (suc i) is

  Slots-log :
      (n : NsoLayer) (f : Frame) (i : ℕ) (is : List NsoIf)
      → Slots n i is
      → Slots (log_frame (some f) n) i is
  unfolding iface_at
  Slots-log n f i [] h = tt
  Slots-log n f i (s ∷ is) (here, long, more) = (here, long, Slots-log n f (suc i) is more)

  broadcast-refused :
      (env : Env) (s : NsoIf) (p : Packet)
      → ltb p.data_at 14 ≡ true
      → nso_if_broadcast env.accepts s p ≡ ok (record { pkt = p; frame = none; success = false })
  unfolding nso_if_broadcast wifi_broadcast wifi_send
  broadcast-refused env s p short = rw short refl

  broadcast-SentAs :
      (env : Env) (s : NsoIf) (p : Packet)
      → ltb p.data_at 14 ≡ false
      → Fits p p.byte_len
      → 6 ≤ length s.handle.if_mac
      → Returns (SentAs s.handle p p.byte_len (replicate 6 0xff)) (nso_if_broadcast env.accepts s p)
  unfolding nso_if_broadcast wifi_broadcast alloc_l2addr
  broadcast-SentAs env s p room f long =
      wifi_send-SentAs env.accepts s.handle p (replicate 6 0xff) (ground arith) f long (omega arith)

  SentAs-Broadcast :
      (s : NsoIf) (p : Packet) (q : Sent)
      → Fits p p.byte_len
      → (d : SentAs s.handle p p.byte_len (replicate 6 0xff) q)
      → Broadcast s (peek p 0 p.byte_len) d.frame
  SentAs-Broadcast s p q f d =
      let size = length-peek p f in
      record {
        on = d.on;
        len = d.framed.len ∙ ap (λ k. k + 14) (sym size);
        to_all = d.framed.dst_at;
        from = d.framed.src_at;
        inner = ap (λ k. slice 14 k d.frame.bytes) size ∙ d.framed.payload;
      }

  -- The loop from a packet of `k` bytes.
  advertise_loop-Advertised :
      (env : Env) (is : List NsoIf) (i : ℕ) (p : Packet) (n : NsoLayer)
      → Fits p p.byte_len
      → Slots n i is
      → Returns
          (λ m.
            (fs : List Frame) × Advertised p.data_at (peek p 0 p.byte_len) is fs
            × (m ≡ log_frames fs n))
          (advertise_loop env (length is) i p n)
  unfolding advertise_loop
  advertise_loop-Advertised env [] i p n f h = returns ([], done, refl)
  advertise_loop-Advertised env (s ∷ is) i p n f (here, long, more) =
      elim (Bool-cases (ltb p.data_at 14)) [
        | inl short ↦
            rw (here, broadcast-refused env s p short)
              (Returns-mono (advertise_loop-Advertised env is (suc i) p n f more)
                λ m (fs, a, same). (fs, no_room (ground arith) a, same))
        | inr room ↦ rw here (
            Returns-bind (broadcast-SentAs env s p room f long) λ q d. rw (d.given) (
              Returns-mono
                (advertise_loop-Advertised env is (suc i) q.pkt (log_frame (some d.frame) n)
                  (subst (Fits q.pkt) (sym d.left_len) d.left_fits)
                  (Slots-log n d.frame (suc i) is more))
                λ m (fs, a, same).
                  let bytes : peek q.pkt 0 q.pkt.byte_len ≡ d.frame.bytes =
                    ap (peek q.pkt 0) d.left_len ∙ d.left in
                  (
                    d.frame ∷ fs,
                    sent q.pkt.data_at d.frame d.left_at (SentAs-Broadcast s p q f d)
                        (subst (λ b. Advertised q.pkt.data_at b is fs) bytes a),
                    same,
                  )))
      ]

  -- The advertisement: its type behind the header, to all devices.
  get_nbr_adv_pkt-Made :
      (env : Env) (n : NsoLayer) (block : List ℕ)
      → env.block ≡ some block
      → length block ≡ n.mtu + 128
      → Returns
          (λ p. Made p n.dev_id alloc_bc_device_id 0xF001 21 (2 ∷ []) × (p.data_at ≡ 64))
          (get_nbr_adv_pkt env n)
  unfolding get_nbr_adv_pkt poke
  get_nbr_adv_pkt-Made env n block given long = rw given (
      Returns-bind (alloc_packet-Fits block n.mtu long) λ p0 (f0, empty, at).
        Returns-bind
          (start_pkt-Started p0 (n.mtu + 64) n.dev_id alloc_bc_device_id 0xF001 f0 (omega arith))
          λ p1 s.
            let p2 = poke 20 (2 ∷ []) p1 in
            let h2 = Header-payload s.header 20 (2 ∷ []) (omega arith) in
            let type : peek p2 20 1 ≡ 2 ∷ [] =
              peek-poke_self p1 20 (2 ∷ []) 1 (omega (arith, s.header.fits.within)) refl in
            rw (put_bytes-ok p1 s.header.fits 20 (2 ∷ []) (omega arith)) (
              Returns-mono
                (finish_pkt-Made p2 (n.mtu + 64) n.dev_id alloc_bc_device_id 0xF001 s.len_ver 21 h2
                  (omega (arith, s.no_version)) (omega arith) (omega arith) (omega arith)
                  (s.same_len ∙ empty))
                λ q (m, at'). (Made-as m refl type, at' ∙ s.same_data ∙ at)))

  -- Let malloc give a block for a packet of the MTU, and the station have the interfaces `is`,
  -- each with an address of at least 6 bytes. Then son_nbr_advertise makes a packet of 21 bytes
  -- from the station to all devices with the type of an advertisement, and returns with no change
  -- but frames given to sendto, one on each interface in order while 14 bytes are left before the
  -- data, which begins at 64: each frame is from the first 6 bytes of its interface's address to
  -- the broadcast address, on the interface's socket, and behind its header the first has the
  -- packet, and each later one the whole frame before it.
  pub son_nbr_advertise-Advertised :
      (env : Env) (n : NsoLayer) (block : List ℕ) (is : List NsoIf)
      → env.block ≡ some block
      → length block ≡ n.mtu + 128
      → n.ifaces_nb ≡ length is
      → Slots n 0 is
      → Returns
          (λ m.
            (pkt : Packet) × Made pkt n.dev_id alloc_bc_device_id 0xF001 21 (2 ∷ [])
            × (fs : List Frame) × Advertised 64 (peek pkt 0 21) is fs
            × (m ≡ log_frames fs n))
          (son_nbr_advertise env n)
  unfolding son_nbr_advertise
  son_nbr_advertise-Advertised env n block is given long count slots =
      Returns-bind (get_nbr_adv_pkt-Made env n block given long) λ p (m, at). simp count (
        Returns-mono
          (advertise_loop-Advertised env is 0 p n
            (record { within = omega (arith, m.header.fits.within, m.within, m.byte_len) }) slots)
          λ n' (fs, a, same). (
            p,
            m,
            fs,
            subst (λ k. Advertised 64 (peek p 0 k) is fs) m.byte_len
                (subst (λ k. Advertised k (peek p 0 p.byte_len) is fs) at a),
            same,
          ))
