-- ===== src/Tests/Channels.antt =====
-- The channel transport: a full channel evicts its oldest record for a new one.
use logger.Base.{ℕ, ◌+◌, ◌%◌, ◌^◌, ◌≤◌, ◌≡◌, refl, ◌⊎◌, true, [], ◌∷◌, ◌++◌, length, pos}
use logger.Record.{Record, blank}
use logger.Transport.{drop_oldest}
use logger.Transport.ChannelTransport.{
  Channel, new_channel, receive, dispatch, evict, System, initial, sends, makes_room, takes,
  evicted, to_worker, holding, Reach, here, next,
}
use logger.Transport.ChannelTransport.Order.{
  records_of, worked, evictions, in_hand, channel_in_order,
}

abbrev note : ℕ → Record
note n = record blank { pc = n }

abbrev single : Channel
single = new_channel (pos 1) drop_oldest

abbrev filled : System
filled = record (initial (pos 1) drop_oldest) {
  channel = record single { ch = note 1 ∷ [] };
  accepted = note 1 ∷ [];
}

abbrev drained : System
drained = record filled { channel = record single { dropped = 1 }; left = (note 1, evicted) ∷ [] }

abbrev refilled : System
refilled = record drained {
  channel = record single { ch = note 2 ∷ []; dropped = 1 };
  accepted = note 1 ∷ note 2 ∷ [];
}

abbrev held : System
held = record refilled {
  channel = record single { dropped = 1 };
  left = (note 1, evicted) ∷ (note 2, to_worker) ∷ [];
  worker = holding (note 2);
}

held_reached : Reach (initial (pos 1) drop_oldest) held
unfolding new_channel dispatch evict receive
held_reached =
    next
      (next (next (next here (sends (note 1) _ refl)) (makes_room (note 1) _ refl refl))
        (sends (note 2) _ refl))
      (takes (note 2) _ refl refl)

channel_in_order_example :
    (held.accepted ≡ records_of held.left ++ held.channel.ch)
    × (held.emitted ++ in_hand held.worker ≡ worked held.left)
    × (held.channel.dropped ≡ (evictions held.left + held.refused + held.nils) % 2 ^ 64)
    × ((held.nils ≡ 0) ⊎ (held.channel.closed ≡ true))
    × (length held.channel.ch ≤ held.channel.capacity)
channel_in_order_example = channel_in_order (pos 1) drop_oldest held held_reached
