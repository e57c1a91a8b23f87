-- ===== src/Parsers/Ranges.antt =====
-- What the getters of a MessageModelParser (Parsers/Getters.antt) can return.
use simulations.Base.{ℤ, pos, ◌≤ℤ◌, ◌≡◌, refl, Bool, true, false, arith, if◌then◌else◌, ltb_ℤ}
use simulations.Floats.{Floating, IsOrdered}
use simulations.Parsers.Messages.{MessageModelParser}
use simulations.Parsers.Getters.{
  get_v_max, get_v_min, get_pause_time, get_probability, get_node_trust_distance,
  get_msg_trust_distance, get_node_exchange_num, get_msg_exchange_num, get_percent_adversaries,
  get_adversary_probability, get_adversary_msg_creation_probability,
  get_collaborator_msg_creation_probability,
}

module _ (F : Floating) where
  abbrev pub NotNegative : F.Float → Type 0
  NotNegative a = F.flt a (F.of_int (pos 0)) ≡ false

  abbrev pub InUnit : F.Float → Type 0
  InUnit a = NotNegative a × (F.flt (F.of_int (pos 1)) a ≡ false)

  pub if_negative-NotNegative :
      (b : Bool) (zero_value a : F.Float)
      → NotNegative zero_value
      → F.flt a (F.of_int (pos 0)) ≡ b
      → NotNegative (if b then zero_value else a)
  if_negative-NotNegative true z a h e = h
  if_negative-NotNegative false z a h e = e

  if_outside-InUnit :
      (low high : Bool) (lower upper a : F.Float)
      → InUnit lower
      → InUnit upper
      → F.flt a (F.of_int (pos 0)) ≡ low
      → F.flt (F.of_int (pos 1)) a ≡ high
      → InUnit (if low then lower else if high then upper else a)
  if_outside-InUnit true high l u a hl hu e f = hl
  if_outside-InUnit false true l u a hl hu e f = hu
  if_outside-InUnit false false l u a hl hu e f = (e, f)

if_below : (n k : ℤ) → k ≤ℤ (if ltb_ℤ n k then k else n)
if_below n k = ground arith

module _ {F : Floating} where
  pub record IsChecked (p : MessageModelParser F) : Type 0 where
    pub v_max : NotNegative F (get_v_max p)
    pub v_min : NotNegative F (get_v_min p)
    pub pause_time : NotNegative F (get_pause_time p)
    pub probability : InUnit F (get_probability p)
    pub node_trust_distance : pos 0 ≤ℤ get_node_trust_distance p
    pub msg_trust_distance : pos 0 ≤ℤ get_msg_trust_distance p
    pub node_exchange_num : pos 1 ≤ℤ get_node_exchange_num p
    pub msg_exchange_num : pos 1 ≤ℤ get_msg_exchange_num p
    pub percent_adversaries : InUnit F (get_percent_adversaries p)
    pub adversary_probability : InUnit F (get_adversary_probability p)
    pub adversary_msg_creation_probability : InUnit F (get_adversary_msg_creation_probability p)
    pub collaborator_msg_creation_probability :
        InUnit F (get_collaborator_msg_creation_probability p)

  -- If the comparisons are ordered and 1 is not below 0, then whatever a parser of message models
  -- has read, its getters return times and speeds that are not negative, probabilities and a
  -- percentage that are neither below 0 nor above 1, trust distances of at least 0 and exchange
  -- numbers of at least 1.
  pub getters-IsChecked :
      IsOrdered F
      → F.flt (F.of_int (pos 1)) (F.of_int (pos 0)) ≡ false
      → (p : MessageModelParser F) → IsChecked p
  unfolding get_v_max get_v_min get_pause_time get_probability get_node_trust_distance
      get_msg_trust_distance get_node_exchange_num get_msg_exchange_num get_percent_adversaries
      get_adversary_probability get_adversary_msg_creation_probability
      get_collaborator_msg_creation_probability
  getters-IsChecked order apart p =
      let zero_value : F.Float = F.of_int (pos 0) in
      let one_value : F.Float = F.of_int (pos 1) in
      let zero_fits : InUnit F zero_value = (order.lt_irrefl zero_value, apart) in
      let one_fits : InUnit F one_value = (apart, order.lt_irrefl one_value) in
      let floor_of = λ (a : F.Float).
        if_negative-NotNegative F (F.flt a zero_value) zero_value a zero_fits.0 refl in
      let unit_of = λ (a : F.Float).
        if_outside-InUnit F (F.flt a zero_value) (F.flt one_value a) zero_value one_value a
          zero_fits one_fits refl refl in
      record {
        v_max = floor_of p.v_max;
        v_min = floor_of p.v_min;
        pause_time = floor_of p.pause_time;
        probability =
            if_outside-InUnit F (F.flt p.probability zero_value) (F.flt one_value p.probability)
              zero_value zero_value p.probability zero_fits zero_fits refl refl;
        node_trust_distance = if_below p.node_trust_distance (pos 0);
        msg_trust_distance = if_below p.msg_trust_distance (pos 0);
        node_exchange_num = if_below p.node_exchange_num (pos 1);
        msg_exchange_num = if_below p.msg_exchange_num (pos 1);
        percent_adversaries = unit_of p.percent_adversaries;
        adversary_probability = unit_of p.adversary_probability;
        adversary_msg_creation_probability = unit_of p.adversary_msg_creation_probability;
        collaborator_msg_creation_probability = unit_of p.collaborator_msg_creation_probability;
      }
