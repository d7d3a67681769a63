-- ===== src/Meta/Step/Records.antt =====
-- The cluster and maintenance commands write what the relation allows.
use dal_service.Prelude.{
  ℕ, ◌≡◌, ◌⊎◌, refl, sym, ap, [], Bool-cases, ◌==◌, inl, inr, none, some, List, arith, nat_eq,
  list_eq, Option-cases, option_eq, option_beq_iff, list_beq_iff,
}
use mathlib.Core.Path.{subst}
use dal_service.Prelude.Sets.{collect_set-IsStrict, set_insert}
use dal_service.Codec.{Bytes}
use dal_service.Types.{NodeId, LogId}
use dal_service.Types.Meta.{ClusterConfig, MaintenanceRecord, MaintenanceStage}
use dal_service.Meta.Store.{MetaStore}
use dal_service.Meta.Cluster.{reinit, init_shape, first_init, cluster_init}
use dal_service.Meta.Maintenance.{
  fresh_record, begin_after, begin_in, begin_maintenance, named, release_verified, release_at,
  release_maintenance, acknowledge_in, acknowledge_maintenance, quiesce_maintenance,
  participant_refusal, all_recovered, enter_maintenance_verification,
}
use dal_service.Meta.Maintenance.Recovery.{
  with_recovery, conclude, earlier_proof, recover_topology, recover_proof,
  acknowledge_maintenance_recovery,
}
use dal_service.Meta.Step.{Allowed, Participates, Proceeds, Maintains}

init_shape-Allowed :
    (s : MetaStore) (l : LogId) (c : ClusterConfig) (voters : List NodeId)
    → s.cluster ≡ none
    → Allowed s l (init_shape c voters l).1
unfolding init_shape
init_shape-Allowed s l c voters uninit = ground (arith, collect_set-IsStrict voters)

pub cluster_init-Allowed :
    (s : MetaStore) (l : LogId) (c : ClusterConfig) (voters : List NodeId)
    → Allowed s l (cluster_init s c voters l).1
unfolding cluster_init reinit first_init
cluster_init-Allowed s l c voters = elim (Option-cases s.cluster) [
  | inl uninit ↦ ground (arith, init_shape-Allowed s l c voters uninit)
  | inr (old, known) ↦ ground arith
]

begin_after-Allowed :
    (s : MetaStore) (l : LogId) (id generation : ℕ) (participants : List NodeId)
    → Allowed s l (begin_after id generation participants s.maintenance).1
unfolding begin_after fresh_record
begin_after-Allowed s l id generation participants = ground arith

pub begin_maintenance-Allowed :
    (s : MetaStore) (l : LogId) (id generation : ℕ) (participants : List NodeId)
    → Allowed s l (begin_maintenance s id generation participants).1
unfolding begin_maintenance begin_in
begin_maintenance-Allowed s l id generation participants =
    ground (arith, begin_after-Allowed s l id generation participants)

-- The commands on the record that they name keep its operation.
module _ (s : MetaStore) (l : LogId) (id generation : ℕ) where
  named_maintenance :
      {r : MaintenanceRecord} → named s.maintenance id generation ≡ some r → s.maintenance ≡ some r
  unfolding named
  named_maintenance h = ground arith

  proceeds :
      (r m : MaintenanceRecord)
      → s.maintenance ≡ some r
      → Proceeds s r m
      → Maintains s m s.maintenance
  proceeds r m held step = subst (λ o. Maintains s m o) (sym held) (inr step)

  acknowledges-Maintains :
      (r : MaintenanceRecord) (n : NodeId)
      → s.maintenance ≡ some r
      → r.stage ≡ MaintenanceStage.preparing
      → Participates s r n
      → Maintains s (record r { acknowledged = set_insert n r.acknowledged }) s.maintenance
  acknowledges-Maintains r n held h k = proceeds r _ held (Proceeds.acknowledges n h k)

  quiesces-Maintains :
      (r : MaintenanceRecord)
      → s.maintenance ≡ some r
      → r.stage ≡ MaintenanceStage.preparing
      → r.acknowledged ≡ r.participants
      → Maintains s (record r { stage = MaintenanceStage.quiesced }) s.maintenance
  quiesces-Maintains r held h k = proceeds r _ held (Proceeds.quiesces h k)

  verifies-Maintains :
      (r : MaintenanceRecord)
      → s.maintenance ≡ some r
      → r.stage ≡ MaintenanceStage.quiesced
      → Maintains s
          (record r {
            stage = MaintenanceStage.verifying;
            recovered = [];
            recovery_processes = [];
            recovery_policy_digests = [];
            verification_policy_digest = none;
            verification_recovery_epoch = none;
          })
          s.maintenance
  verifies-Maintains r held h = proceeds r _ held (Proceeds.verifies h)

  gives_up-Maintains :
      (r : MaintenanceRecord)
      → s.maintenance ≡ some r
      → r.stage ≡ MaintenanceStage.preparing
      → Maintains s (record r { stage = MaintenanceStage.released }) s.maintenance
  gives_up-Maintains r held h = proceeds r _ held (Proceeds.gives_up h)

  releases-Maintains :
      (r : MaintenanceRecord)
      → s.maintenance ≡ some r
      → r.stage ≡ MaintenanceStage.verifying
      → r.recovered ≡ r.participants
      → r.verification_recovery_epoch ≡ some s.recovery_epoch
      → Maintains s (record r { stage = MaintenanceStage.released }) s.maintenance
  releases-Maintains r held h k e = proceeds r _ held (Proceeds.releases h k e)

  release_verified-Allowed :
      (r : MaintenanceRecord) (processes incarnations : List (NodeId × ℕ)) (digest : Bytes)
      → s.maintenance ≡ some r
      → r.stage ≡ MaintenanceStage.verifying
      → r.recovered ≡ r.participants
      → Allowed s l (release_verified s r processes incarnations digest).1
  unfolding release_verified
  release_verified-Allowed r processes incarnations digest held stage all_in =
      let epoch = option_beq_iff r.verification_recovery_epoch (some s.recovery_epoch) in
      ground (arith, epoch, releases-Maintains r held stage all_in)

  release_at-Allowed :
      (r : MaintenanceRecord) (processes incarnations : List (NodeId × ℕ)) (digest : Bytes)
      → s.maintenance ≡ some r
      → Allowed s l (release_at s r r.stage processes incarnations digest).1
  unfolding release_at all_recovered
  release_at-Allowed r processes incarnations digest held = ground (
    arith,
    gives_up-Maintains r held,
    list_beq_iff r.recovered r.participants,
    release_verified-Allowed r processes incarnations digest held,
  )

  participant_refusal-Participates :
      (r : MaintenanceRecord) (n : NodeId) (i : ℕ)
      → participant_refusal s r n i ≡ none
      → Participates s r n
  unfolding participant_refusal
  participant_refusal-Participates r n i h = ground arith

  acknowledge_in-Allowed :
      (r : MaintenanceRecord) (n : NodeId) (i : ℕ)
      → s.maintenance ≡ some r
      → Allowed s l (acknowledge_in s r n i).1
  unfolding acknowledge_in
  acknowledge_in-Allowed r n i held =
      ground (arith, participant_refusal-Participates r n i, acknowledges-Maintains r n held)

  pub release_maintenance-Allowed :
      (processes incarnations : List (NodeId × ℕ)) (digest : Bytes)
      → Allowed s l (release_maintenance s id generation processes incarnations digest).1
  unfolding release_maintenance
  release_maintenance-Allowed processes incarnations digest =
      elim (Option-cases (named s.maintenance id generation)) [
        | inl missing ↦ ground arith
        | inr (r, h) ↦
            ground (arith, release_at-Allowed r processes incarnations digest (named_maintenance h))
      ]

  pub acknowledge_maintenance-Allowed :
      (n : NodeId) (i : ℕ) → Allowed s l (acknowledge_maintenance s id generation n i).1
  unfolding acknowledge_maintenance
  acknowledge_maintenance-Allowed n i = elim (Option-cases (named s.maintenance id generation)) [
    | inl missing ↦ ground arith
    | inr (r, h) ↦ ground (arith, acknowledge_in-Allowed r n i (named_maintenance h))
  ]

  pub quiesce_maintenance-Allowed : Allowed s l (quiesce_maintenance s id generation).1
  unfolding quiesce_maintenance
  quiesce_maintenance-Allowed = elim (Option-cases (named s.maintenance id generation)) [
    | inl missing ↦ ground arith
    | inr (r, h) ↦ ground (
      arith,
      named_maintenance h,
      list_beq_iff r.acknowledged r.participants,
      quiesces-Maintains r,
    )
  ]

  pub enter_verification-Allowed : Allowed s l (enter_maintenance_verification s id generation).1
  unfolding enter_maintenance_verification
  enter_verification-Allowed = elim (Option-cases (named s.maintenance id generation)) [
    | inl missing ↦ ground arith
    | inr (r, h) ↦ ground (arith, named_maintenance h, verifies-Maintains r)
  ]

  module _ (sha256 : Bytes → Bytes) (n : NodeId) (process : ℕ) (topology policy : Bytes)
      (epoch : ℕ) where
    concluded_epoch :
        (r : MaintenanceRecord)
        → epoch ≡ s.recovery_epoch
        → ((conclude r policy epoch).verification_recovery_epoch ≡ none)
          ⊎ ((conclude r policy epoch).verification_recovery_epoch ≡ some s.recovery_epoch)
    unfolding conclude
    concluded_epoch r same = elim (Bool-cases (r.recovered == r.participants)) [
      | inl all_in ↦ inr (rw all_in (ap some same))
      | inr missing ↦ inl (rw missing refl)
    ]

    recovers-Maintains :
        (r : MaintenanceRecord)
        → s.maintenance ≡ some r
        → r.stage ≡ MaintenanceStage.verifying
        → Participates s r n
        → epoch ≡ s.recovery_epoch
        → Maintains s (conclude (with_recovery r n process policy) policy epoch) s.maintenance
    unfolding conclude with_recovery
    recovers-Maintains r held h k same =
        proceeds r _ held (
          Proceeds.recovers n _ _ _ _ h k (concluded_epoch (with_recovery r n process policy) same))

    recover_topology-Allowed :
        (r : MaintenanceRecord)
        → s.maintenance ≡ some r
        → r.stage ≡ MaintenanceStage.verifying
        → Participates s r n
        → epoch ≡ s.recovery_epoch
        → Allowed s l (recover_topology sha256 s r n process topology policy epoch).1
    unfolding recover_topology
    recover_topology-Allowed r held h k same =
        let written = recovers-Maintains r held h k same in ground arith

    recover_proof-Allowed :
        (r : MaintenanceRecord)
        → s.maintenance ≡ some r
        → r.stage ≡ MaintenanceStage.verifying
        → Participates s r n
        → Allowed s l (recover_proof sha256 s r n process topology policy epoch).1
    unfolding recover_proof earlier_proof
    recover_proof-Allowed r held h k = ground (arith, recover_topology-Allowed r held h k)

    pub recovery-Allowed :
        (i : ℕ)
        → Allowed s l
            (acknowledge_maintenance_recovery sha256 s id generation n i process topology policy
              epoch).1
    unfolding acknowledge_maintenance_recovery
    recovery-Allowed i = elim (Option-cases (named s.maintenance id generation)) [
      | inl missing ↦ ground arith
      | inr (r, h) ↦ ground (
        arith,
        recover_proof-Allowed r (named_maintenance h),
        participant_refusal-Participates r n i,
      )
    ]
