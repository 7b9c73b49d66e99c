-- ===== src/Examples.antt =====
-- The theorems at concrete inputs, and the test data they share.
use keebhub.Prelude.{ℕ, Bool, true, false, Option, none, some, [], pos, codes}
use keebhub.Domain.Listing.{Category, PublicUser, Listing, ListingStatus, used, visible, active}
use keebhub.Domain.User.{User, UserStatus}
use keebhub.Domain.Chat.{Conversation, Message, ConversationSummary, MessageCreatedEvent}
pub mod Rules
pub mod Events
pub mod Listings
pub mod Sellers
pub mod Chats
pub mod Logins
pub mod Accounts
pub mod Stores
pub mod Web
pub mod Settings

abbrev pub keyboards : Category
keyboards = record {
  id = 3;
  slug = codes "keyboards";
  name = codes "Keyboards";
  sort_order = pos 1;
  active = true;
}

abbrev pub budi : PublicUser
budi = record {
  id = 7;
  handle = codes "budi";
  display_name = codes "Budi";
  avatar_url = none;
  location = none;
  bio = none;
}

abbrev pub keyboard : ListingStatus → Listing
keyboard status = record {
  id = 5;
  seller_id = 7;
  category_id = 3;
  title = codes "Tofu65";
  description = [];
  price_idr = pos 1_500_000;
  quantity = pos 1;
  condition = used;
  status = status;
  moderation_status = visible;
  negotiable = true;
  created_at = 100;
  updated_at = 200;
  category = keyboards;
  seller = budi;
}

abbrev pub siti : User
siti = record {
  id = 8;
  discord_id = codes "42";
  discord_username = codes "siti";
  display_name = codes "Siti";
  avatar_url = none;
  handle = codes "siti";
  location = none;
  bio = none;
  status = UserStatus.active;
  created_at = 0;
  updated_at = 0;
}

abbrev pub talk : Conversation
talk = record {
  id = 9;
  listing_id = 5;
  seller_id = 7;
  buyer_id = 8;
  seller_last_read_message_id = none;
  buyer_last_read_message_id = none;
  created_at = 300_000;
  last_message_at = some 400_000;
}

abbrev pub hello : Message
hello = record {
  id = 11;
  conversation_id = 9;
  sender_id = 8;
  body = codes "hello";
  created_at = 400_000;
}

abbrev pub summary : ℕ → ConversationSummary
summary n = record {
  conversation = record talk { id = n };
  listing_title = codes "Tofu65";
  listing_status = active;
  counterpart = budi;
  last_message = some hello;
  unread_count = 1;
}

abbrev pub event : MessageCreatedEvent
event = record { conversation_id = 9; message_id = 11; seller_id = 7; buyer_id = 8 }
