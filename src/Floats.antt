-- ===== src/Floats.antt =====
-- The floating-point numbers of the machine, as an interface: `float` and `double` with the
-- conversions and operations that the simulator calls. The arithmetic itself belongs to the
-- compiler and to <math.h>, so it is a parameter of every definition that computes with it.
mod Order
mod Milli
pub use Order.*
pub use Milli.*
