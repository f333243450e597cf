-- ===== src/Pfcp/Messages/Rows.antt =====
-- pfcp-common/src/messages.rs on requests that builder.rs makes: any number of rules of each kind.
use upf_edge.Prelude.{
  ℕ, ◌^◌, ◌<◌, ◌≡◌, refl, ◌∙◌, false, some, List, [], ◌∷◌, ◌++◌, map, append-nil, arith, ok, All,
  All-append, length, ◌==◌, ==_refl,
}
use upf_edge.Bytes.{Bytes, u32_be, u64_be}
use upf_edge.Pfcp.Builder.{
  PdrParams, FarParams, UrrParams, create_pdr_value, pdi_value, far_value, forwarding_value,
  urr_value,
}
use upf_edge.Pfcp.Builder.Far.{IsFar, parsed_far, parse_create_far-far_value}
use upf_edge.Pfcp.Builder.Pdr.{IsPdr, parsed_pdr, parse_create_pdr-create_pdr_value}
use upf_edge.Pfcp.Builder.Rows.{ie}
use upf_edge.Pfcp.Builder.Urr.{IsUrr, parsed_urr, parse_create_urr-urr_value}
use upf_edge.Pfcp.Header.{Result}
use upf_edge.Pfcp.Ie.{parse_fseid, parse_node_id}
use upf_edge.Pfcp.Ie.Grouped.{parse_create_pdr, parse_create_far, parse_create_urr}
use upf_edge.Pfcp.Messages.{SessionEstablishmentReq, decode_session_establishment, collect}
use upf_edge.Pfcp.Tlv.{Ie, items, iter_ies, tlvs}
use upf_edge.Pfcp.Tlv.Walk.{IsIe, items-iter_ies-tlvs}
use upf_edge.Pfcp.Types.{
  pfcp_ie_node_id, pfcp_ie_fseid, pfcp_ie_create_pdr, pfcp_ie_create_far, pfcp_ie_create_urr,
  pfcp_ie_forwarding_parameters,
}

abbrev pub rows : {A : Type 0} → ℕ → (A → Bytes) → List A → List Ie
rows t value [] = []
rows t value (x ∷ xs) = ie t (value x) ∷ rows t value xs

-- What `collect` finds in rows of its own type, and of another.
module _ {A B : Type 0} (parse : Bytes → Result B) (value : A → Bytes) where
  collect-rows :
      (Fits : A → Type 0) (t : ℕ) (read : A → B) (xs : List A) (rest : List Ie) (found : List B)
      → ((x : A) → Fits x → parse (value x) ≡ ok (read x))
      → All Fits xs
      → collect parse t rest ≡ ok found
      → collect parse t (rows t value xs ++ rest) ≡ ok (map read xs ++ found)
  unfolding collect
  collect-rows Fits t read [] rest found h f e = e
  collect-rows Fits t read (x ∷ xs) rest found h (fx, f) e =
      rw (==_refl t, h x fx, collect-rows Fits t read xs rest found h f e) refl

  collect-other :
      (t s : ℕ) (xs : List A) (rest : List Ie)
      → (s == t) ≡ false
      → collect parse t (rows s value xs ++ rest) ≡ collect parse t rest
  unfolding collect
  collect-other t s [] rest e = refl
  collect-other t s (x ∷ xs) rest e = rw (e) (collect-other t s xs rest e)

rows-IsIe :
    {A : Type 0} (value : A → Bytes) (t : ℕ) (xs : List A)
    → t < 2 ^ 16
    → ((x : A) → length (value x) < 2 ^ 16)
    → All IsIe (rows t value xs)
rows-IsIe value t [] h g = tt
rows-IsIe value t (x ∷ xs) h g = ((h, g x), rows-IsIe value t xs h g)

length-create_pdr_value : (p : PdrParams) → length (create_pdr_value p) < 2 ^ 16
unfolding create_pdr_value pdi_value
length-create_pdr_value p = ground arith

length-far_value : (t : ℕ) (f : FarParams) → length (far_value t f) < 2 ^ 16
unfolding far_value forwarding_value
length-far_value t f = ground arith

length-urr_value : (u : UrrParams) → length (urr_value u) < 2 ^ 16
unfolding urr_value
length-urr_value u = ground arith

abbrev far_bytes : FarParams → Bytes
far_bytes f = far_value pfcp_ie_forwarding_parameters f

module _ (smf_addr cp_seid : ℕ) (pdrs : List PdrParams) (fars : List FarParams)
    (urrs : List UrrParams) where
  -- The IEs of a request with the rules, in the order of their kinds.
  abbrev pub request_ies : List Ie
  request_ies =
      ie pfcp_ie_node_id (0x00 ∷ u32_be smf_addr)
      ∷ ie pfcp_ie_fseid (0x02 ∷ (u64_be cp_seid ++ u32_be smf_addr))
      ∷ (rows pfcp_ie_create_pdr create_pdr_value pdrs
          ++ (rows pfcp_ie_create_far far_bytes fars
              ++ (rows pfcp_ie_create_urr urr_value urrs ++ [])))

  -- What the peer is to read.
  abbrev pub request_of : SessionEstablishmentReq
  request_of = record {
    node_id = some smf_addr;
    cp_seid = cp_seid;
    smf_addr = smf_addr;
    create_pdrs = map parsed_pdr pdrs ++ [];
    create_fars = map parsed_far fars ++ [];
    create_urrs = map parsed_urr urrs ++ [];
  }

  -- The numbers fit their fields.
  pub record RulesFit : Type 0 where
    pub smf_addr_fits : smf_addr < 2 ^ 32
    pub cp_seid_fits : cp_seid < 2 ^ 64
    pub pdrs_fit : All IsPdr pdrs
    pub fars_fit : All IsFar fars
    pub urrs_fit : All IsUrr urrs

  request_complete : All IsIe request_ies
  request_complete = (
    omega arith,
    (
      omega arith,
      All-append IsIe (rows pfcp_ie_create_pdr create_pdr_value pdrs) _
          (rows-IsIe create_pdr_value pfcp_ie_create_pdr pdrs (omega arith) length-create_pdr_value)
          (All-append IsIe (rows pfcp_ie_create_far far_bytes fars) _
            (rows-IsIe far_bytes pfcp_ie_create_far fars (omega arith)
              (length-far_value pfcp_ie_forwarding_parameters))
            (All-append IsIe (rows pfcp_ie_create_urr urr_value urrs) _
              (rows-IsIe urr_value pfcp_ie_create_urr urrs (omega arith) length-urr_value) tt)),
    ),
  )

  pub request_walk : items (iter_ies (tlvs request_ies)) ≡ request_ies
  request_walk =
      rw (append-nil (tlvs request_ies)) at (items-iter_ies-tlvs request_ies [] request_complete tt)

  abbrev urr_rows : List Ie
  urr_rows = rows pfcp_ie_create_urr urr_value urrs ++ []

  abbrev far_rows : List Ie
  far_rows = rows pfcp_ie_create_far far_bytes fars ++ urr_rows

  pdrs_found :
      All IsPdr pdrs
      → collect parse_create_pdr pfcp_ie_create_pdr request_ies ≡ ok (map parsed_pdr pdrs ++ [])
  unfolding collect
  pdrs_found h =
      collect-rows parse_create_pdr create_pdr_value IsPdr pfcp_ie_create_pdr parsed_pdr pdrs
        far_rows [] parse_create_pdr-create_pdr_value h
        (collect-other parse_create_pdr far_bytes pfcp_ie_create_pdr pfcp_ie_create_far fars
            urr_rows refl
          ∙ collect-other parse_create_pdr urr_value pfcp_ie_create_pdr pfcp_ie_create_urr urrs []
              refl)

  fars_found :
      All IsFar fars
      → collect parse_create_far pfcp_ie_create_far request_ies ≡ ok (map parsed_far fars ++ [])
  unfolding collect
  fars_found h =
      collect-other parse_create_far create_pdr_value pfcp_ie_create_far pfcp_ie_create_pdr pdrs
        far_rows refl
      ∙ collect-rows parse_create_far far_bytes IsFar pfcp_ie_create_far parsed_far fars urr_rows []
          parse_create_far-far_value h
          (collect-other parse_create_far urr_value pfcp_ie_create_far pfcp_ie_create_urr urrs []
            refl)

  urrs_found :
      All IsUrr urrs
      → collect parse_create_urr pfcp_ie_create_urr request_ies ≡ ok (map parsed_urr urrs ++ [])
  unfolding collect
  urrs_found h =
      collect-other parse_create_urr create_pdr_value pfcp_ie_create_urr pfcp_ie_create_pdr pdrs
        far_rows refl
      ∙ (collect-other parse_create_urr far_bytes pfcp_ie_create_urr pfcp_ie_create_far fars
            urr_rows refl
          ∙ collect-rows parse_create_urr urr_value IsUrr pfcp_ie_create_urr parsed_urr urrs [] []
              parse_create_urr-urr_value h refl)

  -- The decoder reads back a Session Establishment Request with any number of PDRs, FARs and URRs: the
  -- node ID, the CP F-SEID and every rule, in their order, if the numbers fit their fields.
  pub decode-request_ies :
      RulesFit → decode_session_establishment (tlvs request_ies) ≡ ok request_of
  unfolding decode_session_establishment parse_fseid parse_node_id
  decode-request_ies h =
      rw (request_walk, pdrs_found h.pdrs_fit, fars_found h.fars_fit, urrs_found h.urrs_fit)
        (ground arith)
